-- ===== src/Token/Grant.antt =====
-- internal/token/manager.go: minting tokens, and the client_credentials grant.
use Prim.Native.String.{◌++◌}
use oauth4os.Common.{
  ℕ, ◌+◌, String, false, Option, none, some, List, [], ◌∷◌, ◌==◌, nat_eq, if◌then◌else◌,
}
use oauth4os.Common.{◌++◌ as append}
use oauth4os.Common.Dict
use oauth4os.Common.Dict.{Dict}
use oauth4os.Common.Text.{fields, join}
use oauth4os.Token.State.{
  Token, Claims, KeyProvider, Manager, Draw, Form, Reply, granted, failed, hour, unix,
  default_token_expiry_seconds,
}
use oauth4os.Token.Clients.{authenticate_client, validate_scopes, credentials}

abbrev pub bound_key : String → Option String
bound_key t = if t == "" then none else some t

abbrev pub claims_of : Manager → Token → String → Claims
claims_of m tok jti = record {
  iss = m.issuer;
  sub = tok.client_id;
  client_id = tok.client_id;
  scope = join tok.scopes " ";
  iat = unix tok.created_at;
  exp = unix tok.expires_at;
  jti = jti;
  cnf = bound_key tok.dpop_thumbprint;
}

unfoldable pub sign_jwt : Manager → KeyProvider → Token → String → Option String
sign_jwt m kp tok jti =
    let input =
      kp.encode_header kp.current_kid ++ ("." ++ kp.encode_claims (claims_of m tok jti)) in
    elim (kp.sign input) [ none ↦ none | some sig ↦ some (input ++ ("." ++ sig)) ]

-- The opaque name, or the signed JWT where the manager issues those and signing succeeds.
unfoldable pub access_id : Manager → Token → String → String
unfolding sign_jwt
access_id m tok jti = elim m.key_provider [
  | none ↦ tok.id
  | some kp ↦ if m.jwt_enabled then Dict.or_else (sign_jwt m kp tok jti) tok.id else tok.id
]

abbrev pub family : Manager → String → List String
family m client_id = Dict.or_else (Dict.get m.families client_id) []

-- The token of one call, before a JWT takes the place of its name.
abbrev pub opaque_token : Manager → Draw → String → List String → ℕ → Token
opaque_token m d client_id scopes family_created = record {
  id = "tok_" ++ d.token_id;
  client_id = client_id;
  scopes = scopes;
  created_at = d.now;
  expires_at = d.now + hour;
  revoked = false;
  refresh_token = "rtk_" ++ d.refresh_id;
  refresh_expires_at = d.now + m.refresh_ttl;
  family_created_at = if nat_eq family_created 0 then d.now else family_created;
  dpop_thumbprint = "";
}

abbrev pub minted : Manager → Draw → String → List String → ℕ → Token
minted m d client_id scopes family_created =
    let tok = opaque_token m d client_id scopes family_created in
    record tok { id = access_id m tok ("jti_" ++ d.jti) }

unfoldable pub store_token : Manager → Token → Manager
store_token m tok = record m {
  tokens = Dict.put m.tokens tok.id tok;
  refresh = Dict.put m.refresh tok.refresh_token tok.id;
  families = Dict.put m.families tok.client_id (append (family m tok.client_id) (tok.id ∷ []));
}

unfoldable pub create_token_with_family :
    Manager → Draw → String → List String → ℕ → Manager × Token × String
unfolding store_token
create_token_with_family m d client_id scopes family_created =
    let tok = minted m d client_id scopes family_created in
    (store_token m tok, tok, tok.refresh_token)

unfoldable pub create_token : Manager → Draw → String → List String → Manager × Token × String
unfolding create_token_with_family
create_token m d client_id scopes = create_token_with_family m d client_id scopes 0

unfoldable pub create_token_for_client :
    Manager → Draw → String → List String → Manager × Token × String
unfolding create_token
create_token_for_client m d client_id scopes = create_token m d client_id scopes

abbrev pub bearer : String → String → List String → Reply
bearer access refresh scopes = granted (record {
  access_token = access;
  token_type = "Bearer";
  expires_in = default_token_expiry_seconds;
  refresh_token = refresh;
  scope = join scopes " ";
})

-- With no scope in the request, all that the client is registered for.
unfoldable pub requested_scopes : Manager → String → String → List String
requested_scopes m client_id scope_str = elim (fields scope_str) [
  | [] ↦ elim (Dict.get m.clients client_id) [ none ↦ [] | some c ↦ c.scopes ]
  | s ∷ ss ↦ s ∷ ss
]

-- The reply to a call that made a token.
abbrev pub reply_with : List String → Manager × Token × String → Manager × Reply
reply_with scopes (m, tok, refresh) = (m, bearer tok.id refresh scopes)

abbrev pub bad_client : Reply
bad_client = failed 401 "invalid_client" "authentication failed"

abbrev pub bad_scope : Reply
bad_scope = failed 400 "invalid_scope" "requested scope exceeds client allowance"

unfoldable pub handle_client_credentials : Manager → Form → Draw → Manager × Reply
handle_client_credentials m f d =
    let (client_id, secret) = credentials f in
    let scopes = requested_scopes m client_id f.scope in
    elim (authenticate_client m client_id secret) [
      | some _ ↦ (m, bad_client)
      | none ↦ elim (validate_scopes m client_id scopes) [
        | some _ ↦ (m, bad_scope)
        | none ↦ reply_with scopes (create_token m d client_id scopes)
      ]
    ]
