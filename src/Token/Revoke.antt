-- ===== src/Token/Revoke.antt =====
-- internal/token/manager.go: revocation by name, by client, and by RFC 7009.
use oauth4os.Common.{
  ℕ, ◌+◌, String, Bool, true, false, not, ◌||◌, Option, none, some, List, [], ◌∷◌, ◌==◌,
  if◌then◌else◌,
}
use oauth4os.Common.Dict
use oauth4os.Common.Dict.{Dict}
use oauth4os.Token.State.{Token, Manager, Form, Reply, status}
use oauth4os.Token.Clients.{authenticate_client}
use oauth4os.Token.Grant.{family, bad_client}
use oauth4os.Token.Refresh.{revoke}

abbrev pub is_live : Option Token → Bool
is_live none = false
is_live (some tok) = not tok.revoked

-- the loop of RevokeByClient
unfoldable pub revoke_counting : List String → Dict Token → ℕ → Dict Token × ℕ
revoke_counting [] tokens count = (tokens, count)
revoke_counting (id ∷ ids) tokens count =
    let live = is_live (Dict.get tokens id) in
    revoke_counting ids (if live then Dict.adjust tokens id revoke else tokens)
      (if live then count + 1 else count)

unfoldable pub revoke_by_client : Manager → String → Manager × ℕ
unfolding revoke_counting
revoke_by_client m client_id =
    let (tokens, count) = revoke_counting (family m client_id) m.tokens 0 in
    (record m { tokens = tokens }, count)

unfoldable pub revoke_token : Manager → String → Manager × Reply
revoke_token m id = (record m { tokens = Dict.adjust m.tokens id revoke }, status 204)

abbrev pub revoke_if_refresh : String → Token → Token
revoke_if_refresh value tok = if tok.refresh_token == value then revoke tok else tok

-- basic authentication comes first here, also where the form names a client
unfoldable pub revocation_credentials : Form → String × String
revocation_credentials f = elim f.basic_auth [
  | none ↦ (f.client_id, f.client_secret)
  | some (id, secret) ↦ (id, secret)
]

unfoldable pub revoke_value : Manager → String → String → Manager
revoke_value m value hint =
    let tokens = Dict.adjust m.tokens value revoke in
    if hint == "refresh_token" || hint == ""
    then record m { tokens = Dict.adjust_all tokens (revoke_if_refresh value) }
    else record m { tokens = tokens }

abbrev pub refused_client : Manager → String → String → Bool
refused_client m client_id secret =
    if client_id == ""
    then false
    else elim (authenticate_client m client_id secret) [ none ↦ false | some _ ↦ true ]

unfoldable pub revoke_rfc7009 : Manager → Form → Manager × Reply
unfolding revoke_value
revoke_rfc7009 m f =
    let (client_id, secret) = revocation_credentials f in
    if refused_client m client_id secret
    then (m, bad_client)
    else if f.token == ""
    then (m, status 200)
    else (revoke_value m f.token f.token_type_hint, status 200)
