-- ===== src/Token/Maintain.antt =====
-- internal/token/manager.go: validity, the sliding window, DPoP binding, clean-up and reports.
use Prim.Native.Nat.{min}
use Prim.Native.String.{◌++◌, slice, len}
use oauth4os.Common.{
  ℕ, ◌+◌, ◌/◌, String, Bool, true, false, not, ◌&&◌, ◌||◌, Option, none, some, List, [], ◌∷◌, ◌==◌,
  ltb, nat_eq, if◌then◌else◌,
}
use oauth4os.Common.Dict
use oauth4os.Common.Dict.{Dict, size}
use oauth4os.Token.State.{Token, Manager, Reply, failed, found, hour}

unfoldable pub is_valid : Manager → ℕ → String → Bool
is_valid m now id = elim (Dict.get m.tokens id) [
  | none ↦ false
  | some tok ↦ not tok.revoked && ltb now tok.expires_at
]

-- `remaining < window/2`, where `remaining` is the time until expiry and may be negative
unfoldable pub needs_touch : ℕ → ℕ → Token → Bool
needs_touch now window tok = not tok.revoked && ltb tok.expires_at (now + window / 2)

abbrev pub window_or_hour : ℕ → ℕ
window_or_hour window = if nat_eq window 0 then hour else window

abbrev pub extend : ℕ → Token → Token
extend until tok = record tok { expires_at = until }

unfoldable pub touch_token : Manager → ℕ → String → ℕ → Manager × Bool
unfolding needs_touch
touch_token m now id window = elim (Dict.get m.tokens id) [
  | none ↦ (m, false)
  | some tok ↦
      if needs_touch now (window_or_hour window) tok
      then (
        record m { tokens = Dict.put m.tokens id (extend (now + window_or_hour window) tok) },
        true,
      )
      else (m, false)
]

abbrev pub bind_to : String → Token → Token
bind_to thumbprint tok = record tok { dpop_thumbprint = thumbprint }

unfoldable pub bind_dpop : Manager → String → String → Manager
bind_dpop m id thumbprint = record m { tokens = Dict.adjust m.tokens id (bind_to thumbprint) }

unfoldable pub verify_dpop : Manager → String → String → Bool
verify_dpop m id thumbprint = elim (Dict.get m.tokens id) [
  | none ↦ false
  | some tok ↦ tok.dpop_thumbprint == "" || tok.dpop_thumbprint == thumbprint
]

-- revoked, or expired at the given time
unfoldable pub is_dead : ℕ → Token → Bool
is_dead now tok = tok.revoked || ltb tok.expires_at now

-- The loop of Cleanup over what the range visits: delete(m.refresh, tok.RefreshToken); removed++.
-- That it deletes the token itself is the sweep below.
unfoldable pub cleanup_loop : ℕ → List (String × Token) → Dict String → ℕ → Dict String × ℕ
unfolding is_dead
cleanup_loop now [] refresh removed = (refresh, removed)
cleanup_loop now ((id, tok) ∷ rest) refresh removed =
    let dead = is_dead now tok in
    cleanup_loop now rest (if dead then Dict.remove refresh tok.refresh_token else refresh)
      (if dead then removed + 1 else removed)

unfoldable pub cleanup : Manager → ℕ → Manager × ℕ
unfolding cleanup_loop
cleanup m now =
    let (refresh, removed) = cleanup_loop now m.tokens.range m.refresh 0 in
    (record m { tokens = Dict.sweep m.tokens (is_dead now); refresh = refresh }, removed)

pub record Stats : Type 0 where
  pub total : ℕ
  pub active : ℕ
  pub revoked : ℕ
  pub expired : ℕ
  pub clients : ℕ
  pub refresh : ℕ

-- the loop of Stats: active, revoked, expired
unfoldable pub stats_loop : ℕ → List (String × Token) → ℕ → ℕ → ℕ → ℕ × ℕ × ℕ
stats_loop now [] active revoked expired = (active, revoked, expired)
stats_loop now ((id, tok) ∷ rest) active revoked expired =
    let late = not tok.revoked && ltb tok.expires_at now in
    let fine = not tok.revoked && not (ltb tok.expires_at now) in
    stats_loop now rest (if fine then active + 1 else active)
      (if tok.revoked then revoked + 1 else revoked) (if late then expired + 1 else expired)

unfoldable pub stats : Manager → ℕ → Stats
unfolding stats_loop
stats m now =
    let (active, revoked, expired) = stats_loop now m.tokens.range 0 0 0 in
    record {
      total = size m.tokens;
      active = active;
      revoked = revoked;
      expired = expired;
      clients = size m.clients;
      refresh = size m.refresh;
    }

-- the loop of ListTokens
unfoldable pub unrevoked : List (String × Token) → List Token
unrevoked [] = []
unrevoked ((id, tok) ∷ rest) = let more = unrevoked rest in if tok.revoked then more else tok ∷ more

unfoldable pub list_tokens : Manager → List Token
unfolding unrevoked
list_tokens m = unrevoked m.tokens.range

pub record TokenInfo : Type 0 where
  pub id : String
  pub client_id : String
  pub scopes : List String
  pub created_at : ℕ
  pub expires_at : ℕ

abbrev pub token_info : Token → TokenInfo
token_info tok = record {
  id = slice tok.id 0 (min 16 (len tok.id)) ++ "...";
  client_id = tok.client_id;
  scopes = tok.scopes;
  created_at = tok.created_at;
  expires_at = tok.expires_at;
}

-- the loop of ListActiveTokens
unfoldable pub active_infos : ℕ → List (String × Token) → List TokenInfo
active_infos now [] = []
active_infos now ((id, tok) ∷ rest) =
    let more = active_infos now rest in
    if not tok.revoked && ltb now tok.expires_at then token_info tok ∷ more else more

unfoldable pub list_active_tokens : Manager → ℕ → List TokenInfo
unfolding active_infos
list_active_tokens m now = active_infos now m.tokens.range

unfoldable pub get_token : Manager → String → Reply
get_token m id = elim (Dict.get m.tokens id) [
  | none ↦ failed 404 "not_found" "token not found"
  | some tok ↦ found tok
]

-- Lookup, for introspection: the token's data, if there is one.
unfoldable pub lookup : Manager → String → Option Token
lookup m id = Dict.get m.tokens id
