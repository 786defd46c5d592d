-- ===== src/ApiKey/Store.antt =====
-- internal/apikey/store.go: the store and its methods. The 32 random bytes of a new key are an
-- argument, as the hexadecimal text of them; its first 16 characters are those of the first 8 bytes.
use Prim.Native.String.{◌++◌, slice}
use oauth4os.Common.{
  ℕ, String, Bool, true, false, not, ◌&&◌, Option, none, some, List, [], ◌∷◌, ◌==◌, if◌then◌else◌,
}
use oauth4os.Common.Dict
use oauth4os.Common.Dict.{Dict}
use oauth4os.Common.Dict.Find.{find_key}

pub record Key : Type 0 where
  pub id : String
  pub client_id : String
  pub prefix : String
  pub hash : String
  pub scopes : List String
  pub created_at : ℕ
  pub last_used : ℕ
  pub revoked : Bool

pub record Claims : Type 0 where
  pub client_id : String
  pub scopes : List String
  pub key_id : String

pub record Store : Type 0 where
  pub keys : Dict Key

unfoldable pub new_store : Store
new_store = record { keys = Dict.empty }

abbrev pub raw_key : String → String
raw_key hex = "oak_" ++ hex

abbrev pub key_of : String → List String → String → ℕ → Key
key_of client_id scopes hex now = record {
  id = slice hex 0 16;
  client_id = client_id;
  prefix = slice (raw_key hex) 0 12;
  hash = raw_key hex;
  scopes = scopes;
  created_at = now;
  last_used = 0;
  revoked = false;
}

unfoldable pub generate : Store → String → List String → String → ℕ → Store × String × Key
generate s client_id scopes hex now =
    let k = key_of client_id scopes hex now in
    (record { keys = Dict.put s.keys (raw_key hex) k }, raw_key hex, k)

abbrev pub used : ℕ → Key → Key
used now k = record k { last_used = now }

abbrev pub claims_of : Key → Claims
claims_of k = record { client_id = k.client_id; scopes = k.scopes; key_id = k.id }

unfoldable pub validate : Store → String → ℕ → Store × Option Claims
validate s raw now = elim (Dict.get s.keys raw) [
  | none ↦ (s, none)
  | some k ↦
      if k.revoked
      then (s, none)
      else if raw == k.hash
      then (record { keys = Dict.adjust s.keys raw (used now) }, some (claims_of k))
      else (s, none)
]

abbrev pub has_id : String → Key → Bool
has_id id k = k.id == id

abbrev pub revoke_key : Key → Key
revoke_key k = record k { revoked = true }

unfoldable pub revoke : Store → String → Store × Bool
revoke s key_id = elim (find_key s.keys (has_id key_id)) [
  | none ↦ (s, false)
  | some raw ↦ (record { keys = Dict.adjust s.keys raw revoke_key }, true)
]

-- the loop of List
unfoldable pub list_keys : String → List (String × Key) → List Key
list_keys client_id [] = []
list_keys client_id ((raw, k) ∷ rest) =
    let more = list_keys client_id rest in
    if k.client_id == client_id && not k.revoked then k ∷ more else more

unfoldable pub list : Store → String → List Key
unfolding list_keys
list s client_id = list_keys client_id s.keys.range
