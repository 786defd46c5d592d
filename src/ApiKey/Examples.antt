-- ===== src/ApiKey/Examples.antt =====
-- The theorems on keys at a store with two of them.
use oauth4os.Common.{String, ◌≡◌, refl, true, none, some, [], ◌∷◌, ne_of_test, arith, eq_iff}
use oauth4os.Common.Dict
use oauth4os.Common.Dict.{get-put, get-empty}
use oauth4os.ApiKey.Store.{Key, Store, new_store, generate, revoke, validate, key_of, raw_key}
use oauth4os.ApiKey.Lifecycle.{generates, validates, revokes, step, run, OnlyId, revoke_forever}

abbrev first_hex : String
first_hex = "00112233445566778899"

abbrev second_hex : String
second_hex = "ffeeddccbbaa99887766"

abbrev store : Store
store =
    run new_store (generates "app" ("read" ∷ []) first_hex 5 ∷ generates "app" [] second_hex 6 ∷ [])

abbrev key : Key
key = key_of "app" ("read" ∷ []) first_hex 5

key_there : Dict.get store.keys (raw_key first_hex) ≡ some key
unfolding run step generate new_store Dict.get Dict.put Dict.empty
key_there = refl

key-OnlyId : OnlyId store (raw_key first_hex) key
unfolding run step generate new_store
key-OnlyId i other there same = ground (
  arith,
  get-put (Dict.put Dict.empty (raw_key first_hex) key) (raw_key second_hex) i
      (key_of "app" [] second_hex 6),
  get-put Dict.empty (raw_key first_hex) i key,
  get-empty {V = Key} i,
  eq_iff (raw_key first_hex) i,
  ne_of_test "ffeeddccbbaa9988" "0011223344556677" refl,
)

revoke_forever_example :
    let (after, found) = revoke store key.id in
    (found ≡ true)
    × ((validate (run after (validates "oak_" 7 ∷ revokes "none" ∷ [])) (raw_key first_hex) 9).1
        ≡ none)
revoke_forever_example =
    revoke_forever store (raw_key first_hex) key (validates "oak_" 7 ∷ revokes "none" ∷ []) 9
      key_there key-OnlyId (tt, (tt, tt))
