-- ===== src/ApiKey/Lifecycle.antt =====
-- internal/apikey/store.go: a key is good from the call that makes it to the one that revokes it.
use oauth4os.Common.{
  ℕ, String, ◌≡◌, ◌≢◌, refl, inl, inr, Bool, true, false, Option, none, some, List, [], ◌∷◌, eq_iff,
  eq_refl, All, Option-cases, arith,
}
use oauth4os.Common.Dict
use oauth4os.Common.Dict.{Dict, get-put, get-adjust}
use oauth4os.Common.Dict.Find.{find_key, find_key-passes, find_key-none}
use oauth4os.ApiKey.Store.{
  Key, Store, raw_key, key_of, generate, used, validate, has_id, revoke_key, revoke,
}

pub data Call : Type 0 where
  generates : String → List String → String → ℕ → Call
  validates : String → ℕ → Call
  revokes : String → Call

unfoldable pub step : Store → Call → Store
step s (generates client scopes hex now) = (generate s client scopes hex now).0
step s (validates raw now) = (validate s raw now).0
step s (revokes id) = (revoke s id).0

unfoldable pub run : Store → List Call → Store
run s [] = s
run s (c ∷ cs) = run (step s c) cs

-- The call does not draw the bytes of the key.
abbrev pub Spares : String → Call → Type 0
Spares raw (generates client scopes hex now) = raw_key hex ≢ raw
Spares raw (validates other now) = Unit
Spares raw (revokes id) = Unit

abbrev is_revoked : Option Key → Bool
is_revoked none = false
is_revoked (some k) = k.revoked

step-revoked :
    (s : Store) (raw : String) (c : Call)
    → Spares raw c
    → is_revoked (Dict.get s.keys raw) ≡ true
    → is_revoked (Dict.get (step s c).keys raw) ≡ true
unfolding step generate validate revoke
step-revoked s raw (generates client scopes hex now) spares h = ground (
  arith,
  get-put s.keys (raw_key hex) raw (key_of client scopes hex now),
  eq_iff (raw_key hex) raw,
)
step-revoked s raw (validates other now) spares h =
    ground (arith, get-adjust s.keys other raw (used now))
step-revoked s raw (revokes id) spares h = elim (Option-cases (find_key s.keys (has_id id))) [
  | inl e ↦ rw (e, step, revoke) h
  | inr (found, e) ↦ rw (e, step, revoke) (ground (arith, get-adjust s.keys found raw revoke_key))
]

run-revoked :
    (s : Store) (raw : String) (cs : List Call)
    → All (Spares raw) cs
    → is_revoked (Dict.get s.keys raw) ≡ true
    → is_revoked (Dict.get (run s cs).keys raw) ≡ true
unfolding run
run-revoked s raw [] spares h = h
run-revoked s raw (c ∷ cs) spares h =
    run-revoked (step s c) raw cs spares.1 (step-revoked s raw c spares.0 h)

validate-revoked :
    (s : Store) (raw : String) (now : ℕ)
    → is_revoked (Dict.get s.keys raw) ≡ true
    → (validate s raw now).1 ≡ none
unfolding validate
validate-revoked s raw now h = elim (Option-cases (Dict.get s.keys raw)) [
  | inl e ↦ rw (e, validate) refl
  | inr (k, e) ↦ rw (e, validate) (ground arith)
]

-- No other key has the id of this one.
abbrev pub OnlyId : Store → String → Key → Type 0
OnlyId s raw k =
    (i : String) (other : Key) → Dict.get s.keys i ≡ some other → other.id ≡ k.id → i ≡ raw

found_it :
    (s : Store) (raw : String) (k : Key) (i : String)
    → OnlyId s raw k
    → find_key s.keys (has_id k.id) ≡ some i
    → i ≡ raw
found_it s raw k i only e =
    let fits = find_key-passes s.keys (has_id k.id) i e in
    elim (Option-cases (Dict.get s.keys i)) [
      | inl lost ↦ absurd (ground arith)
      | inr (other, there) ↦ only i other there (ground (arith, eq_iff other.id k.id))
    ]

-- Revoking a key by its id, which no other key has, succeeds, and from then on the key is refused,
-- whatever calls come in between, unless the same random bytes are drawn again.
pub revoke_forever :
    (s : Store) (raw : String) (k : Key) (cs : List Call) (now : ℕ)
    → Dict.get s.keys raw ≡ some k
    → OnlyId s raw k
    → All (Spares raw) cs
    → let (after, found) = revoke s k.id in
      (found ≡ true) × ((validate (run after cs) raw now).1 ≡ none)
unfolding revoke
revoke_forever s raw k cs now there only spares =
    elim (Option-cases (find_key s.keys (has_id k.id))) [
      | inl e ↦ absurd (find_key-none s.keys (has_id k.id) raw k there (eq_refl k.id) e)
      | inr (i, e) ↦
          let same = found_it s raw k i only e in
          let gone : is_revoked (Dict.get (revoke s k.id).0.keys raw) ≡ true =
            rw (e, revoke)
              (rw same (ground (arith, get-adjust s.keys raw raw revoke_key, eq_refl raw))) in
          (
            rw (e, revoke) refl,
            validate-revoked (run (revoke s k.id).0 cs) raw now
                (run-revoked (revoke s k.id).0 raw cs spares gone),
          )
    ]
