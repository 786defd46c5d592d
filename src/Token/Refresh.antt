-- ===== src/Token/Refresh.antt =====
-- internal/token/manager.go: handleRefreshToken with reuse detection and rotation, revokeFamily,
-- and the dispatch of IssueToken.
use oauth4os.Common.{
  ℕ, ◌+◌, String, Bool, true, not, ◌&&◌, Option, none, some, List, [], ◌∷◌, ◌==◌, ltb, nat_eq,
  subset, if◌then◌else◌,
}
use oauth4os.Common.Dict
use oauth4os.Common.Dict.{Dict}
use oauth4os.Common.Text.{fields}
use oauth4os.Token.State.{Token, Manager, Draw, Form, Reply, failed}
use oauth4os.Token.Clients.{authenticate_client, credentials}
use oauth4os.Token.Grant.{
  family, create_token_with_family, bearer, bad_client, handle_client_credentials,
}

abbrev pub revoke : Token → Token
revoke tok = record tok { revoked = true }

-- the loop of revokeFamily
unfoldable pub revoke_each : List String → Dict Token → Dict Token
revoke_each [] tokens = tokens
revoke_each (id ∷ ids) tokens = revoke_each ids (Dict.adjust tokens id revoke)

unfoldable pub revoke_family : Manager → String → Manager
revoke_family m client_id = record m { tokens = revoke_each (family m client_id) m.tokens }

abbrev pub invalid_grant : String → Reply
invalid_grant desc = failed 400 "invalid_grant" desc

-- What the part of the handler under the lock ends with: an error, or the old token's scopes and
-- the birth of its family.
pub data Redeemed : Type 0 where
  rejected : Manager → Reply → Redeemed
  rotated : Manager → List String → ℕ → Redeemed

-- the time is after t, where t is set
abbrev pub past : ℕ → ℕ → ℕ → Bool
past t now limit = not (nat_eq t 0) && ltb limit now

abbrev pub burn : Manager → String → Manager
burn m refresh_token = record m { refresh = Dict.remove m.refresh refresh_token }

unfoldable pub rotate : Manager → String → String → String → Token → Manager
rotate m client_id refresh_token old_id old = record m {
  tokens = Dict.adjust m.tokens old_id revoke;
  refresh = Dict.remove m.refresh refresh_token;
  used_refresh = Dict.put m.used_refresh refresh_token client_id;
}

unfoldable pub redeem_token : Manager → ℕ → String → String → String → Token → Redeemed
unfolding rotate revoke_family
redeem_token m now client_id refresh_token old_id old =
    if not (old.client_id == client_id)
    then rejected m (invalid_grant "refresh token does not belong to client")
    else if past old.refresh_expires_at now old.refresh_expires_at
    then rejected (burn m refresh_token) (invalid_grant "refresh token expired")
    else if past old.family_created_at now (old.family_created_at + m.refresh_max_life)
    then rejected (burn (revoke_family m client_id) refresh_token)
        (invalid_grant "refresh token family expired — re-authenticate")
    else rotated (rotate m client_id refresh_token old_id old) old.scopes old.family_created_at

unfoldable pub redeem : Manager → ℕ → String → String → Redeemed
unfolding redeem_token
redeem m now client_id refresh_token = elim (Dict.get m.used_refresh refresh_token) [
  | some stolen ↦
      rejected (revoke_family m stolen)
        (invalid_grant "refresh token reuse detected — all tokens revoked")
  | none ↦ elim (Dict.get m.refresh refresh_token) [
    | none ↦ rejected m (invalid_grant "refresh token not found or expired")
    | some old_id ↦ elim (Dict.get m.tokens old_id) [
      | none ↦ rejected m (invalid_grant "refresh token does not belong to client")
      | some old ↦ redeem_token m now client_id refresh_token old_id old
    ]
  ]
]

-- A request may ask for fewer scopes; `none` is one that asks for others.
unfoldable pub narrow : String → List String → Option (List String)
narrow scope scopes =
    if scope == ""
    then some scopes
    else if subset (fields scope) scopes
    then some (fields scope)
    else none

abbrev pub reply_new : Manager × Token × String → Manager × Reply
reply_new (m, tok, refresh) = (m, bearer tok.id refresh tok.scopes)

-- The part of the handler after the lock is released.
unfoldable pub reissue : Redeemed → String → Draw → String → Manager × Reply
reissue (rejected m r) client_id d scope = (m, r)
reissue (rotated m scopes family_created) client_id d scope = elim (narrow scope scopes) [
  | none ↦ (m, failed 400 "invalid_scope" "requested scope exceeds original grant")
  | some kept ↦ reply_new (create_token_with_family m d client_id kept family_created)
]

unfoldable pub handle_refresh_token : Manager → Form → Draw → Manager × Reply
unfolding reissue redeem
handle_refresh_token m f d =
    let (client_id, secret) = credentials f in
    elim (authenticate_client m client_id secret) [
      | some _ ↦ (m, bad_client)
      | none ↦ reissue (redeem m d.now client_id f.refresh_token) client_id d f.scope
    ]

unfoldable pub issue_token : Manager → Form → Draw → Manager × Reply
unfolding handle_client_credentials handle_refresh_token
issue_token m f d =
    if f.grant_type == "client_credentials"
    then handle_client_credentials m f d
    else if f.grant_type == "refresh_token"
    then handle_refresh_token m f d
    else (m, failed 400 "unsupported_grant_type" "use client_credentials or refresh_token")
