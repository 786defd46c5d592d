-- ===== src/Jwt/Validator.antt =====
-- internal/jwt/validator.go: the cache of key sets and `Validate`. The parser of JWTs, JSON and the
-- network are parameters: `Library` says what they answer during one call. Times are numbers of
-- nanoseconds and the clock does not run backwards.
use Prim.Native.String.{◌++◌}
use oauth4os.Common.{
  ℕ, ◌-◌, ◌*◌, String, Bool, true, false, not, ◌&&◌, Option, none, some, List, [], ◌∷◌, ◌==◌, ◌!=◌,
  ltb, nat_eq, if◌then◌else◌,
}
use oauth4os.Common.Dict
use oauth4os.Common.Dict.{Dict}
use oauth4os.Common.Text.{fields}
use oauth4os.Common.Text.Cut.{trim_suffix}
use oauth4os.Jwt.Keys.{
  Failure, empty_token, malformed, unknown_issuer, discovery_failed, fetch_failed, decode_failed,
  not_verified, audience_mismatch, Attempt, ok, failed, Provider, JwksKey, JwksSet, PublicKey,
  find_key, audience_match, find_provider, set_uri,
}

-- The claim "scope": a text, a list (whose entries that are no texts are `none`), or anything else.
pub data ScopeClaim : Type 0 where
  text : String → ScopeClaim
  items : List (Option String) → ScopeClaim
  other : ScopeClaim

-- The claims of a verified token; a text that is missing, or no text, reads as "".
pub record MapClaims : Type 0 where
  pub audience : List String
  pub scope : ScopeClaim
  pub client_id : String
  pub azp : String
  pub sub : String
  pub exp : ℕ

-- The claim "iss" and the header "kid" of a token that parses, and whether its method, by the header
-- "alg", is a SigningMethodRSA.
pub record Unverified : Type 0 where
  pub iss : String
  pub kid : String
  pub method_is_rsa : Bool

pub record Response : Type 0 where
  pub status : ℕ
  pub body : String

pub record Discovery : Type 0 where
  pub jwks_uri : String
  pub issuer : String

-- `parse` verifies the signature under a key, and the expiry, which is required.
pub record Library : Type 0 where
  pub parse_unverified : String → Option Unverified
  pub parse : String → PublicKey → Option MapClaims
  pub get : String → Option Response
  pub decode_jwks : String → Option (List JwksKey)
  pub decode_discovery : String → Option Discovery
  pub base64 : String → Option (List ℕ)

pub record Claims : Type 0 where
  pub client_id : String
  pub subject : String
  pub issuer : String
  pub scopes : List String
  pub exp : ℕ

pub record Validator : Type 0 where
  pub providers : List Provider
  pub jwks_cache : Dict JwksSet

unfoldable pub new_validator : List Provider → Validator
new_validator providers = record { providers = providers; jwks_cache = Dict.empty }

abbrev pub hour : ℕ
hour = 3600 * 1000000000

unfoldable pub texts : List (Option String) → List String
texts [] = []
texts (none ∷ vs) = texts vs
texts (some s ∷ vs) = s ∷ texts vs

unfoldable pub extract_scopes : ScopeClaim → List String
unfolding texts
extract_scopes (text s) = fields s
extract_scopes (items vs) = texts vs
extract_scopes other = []

abbrev pub well_known : String → String
well_known issuer = trim_suffix issuer "/" ++ "/.well-known/openid-configuration"

abbrev pub given_uri : String → Bool
given_uri uri = uri != "" && uri != "auto"

-- what a discovery document gives, if it is that of the issuer
abbrev pub discovered : Validator → Provider → Discovery → Validator × Attempt String
discovered v p d =
    if d.issuer != p.issuer
    then (v, failed discovery_failed)
    else if d.jwks_uri == ""
    then (v, failed discovery_failed)
    else (record v { providers = set_uri v.providers p.issuer d.jwks_uri }, ok d.jwks_uri)

module _ (lib : Library) where
  unfoldable pub resolve_jwks_uri : Validator → Provider → Validator × Attempt String
  resolve_jwks_uri v p =
      if given_uri p.jwks_uri then (v, ok p.jwks_uri) else elim (lib.get (well_known p.issuer)) [
        | none ↦ (v, failed discovery_failed)
        | some resp ↦
            if nat_eq resp.status 200
            then elim (lib.decode_discovery resp.body) [
              | none ↦ (v, failed discovery_failed)
              | some d ↦ discovered v p d
            ]
            else (v, failed discovery_failed)
      ]

  -- a stale key set, up to a day old, where fetching failed
  unfoldable pub fallback_cache : Validator → String → ℕ → Failure → Attempt (List JwksKey)
  fallback_cache v issuer now fetch_err = elim (Dict.get v.jwks_cache issuer) [
    | none ↦ failed fetch_err
    | some cached ↦
        if ltb (now - cached.fetched_at) (24 * hour) then ok cached.keys else failed fetch_err
  ]

  unfoldable pub fetch_jwks : Validator → String → ℕ → String → Validator × Attempt (List JwksKey)
  unfolding fallback_cache
  fetch_jwks v issuer now uri = elim (lib.get uri) [
    | none ↦ (v, fallback_cache v issuer now fetch_failed)
    | some resp ↦
        if nat_eq resp.status 200
        then elim (lib.decode_jwks resp.body) [
          | none ↦ (v, failed decode_failed)
          | some keys ↦ (
            record v {
              jwks_cache = Dict.put v.jwks_cache issuer (record { keys = keys; fetched_at = now });
            },
            ok keys,
          )
        ]
        else (v, fallback_cache v issuer now fetch_failed)
  ]

  -- the part of getJWKS after the look into the cache
  unfoldable pub refresh_jwks : Validator → Provider → ℕ → Validator × Attempt (List JwksKey)
  unfolding resolve_jwks_uri fetch_jwks
  refresh_jwks v p now =
      let (v', found) = resolve_jwks_uri v p in
      elim found [
        | failed e ↦ (v', fallback_cache v' p.issuer now e)
        | ok uri ↦ fetch_jwks v' p.issuer now uri
      ]

  unfoldable pub get_jwks : Validator → Provider → Bool → ℕ → Validator × Attempt (List JwksKey)
  unfolding refresh_jwks
  get_jwks v p true now = refresh_jwks v p now
  get_jwks v p false now = elim (Dict.get v.jwks_cache p.issuer) [
    | none ↦ refresh_jwks v p now
    | some cached ↦
        if ltb (now - cached.fetched_at) hour then (v, ok cached.keys) else refresh_jwks v p now
  ]

  -- the provider as the pointer shows it after a call that may have set its URI
  abbrev pub provider_now : Validator → Provider → Provider
  provider_now v p = Dict.or_else (find_provider v.providers p.issuer) p

  abbrev pub use_keys : Validator × Attempt (List JwksKey) → String → Validator × Attempt PublicKey
  use_keys (v, failed e) kid = (v, failed e)
  use_keys (v, ok keys) kid = (v, find_key lib.base64 keys kid)

  -- `if err != nil && kid != ""`: fetch the keys again, once
  abbrev pub retry_key :
      Provider → String → ℕ → Validator × Attempt PublicKey → Validator × Attempt PublicKey
  retry_key p kid now (v, ok key) = (v, ok key)
  retry_key p kid now (v, failed e) =
      if kid != "" then use_keys (get_jwks v (provider_now v p) true now) kid else (v, failed e)

  abbrev pub first_try :
      Provider → String → ℕ → Validator × Attempt (List JwksKey) → Validator × Attempt PublicKey
  first_try p kid now (v, failed e) = (v, failed e)
  first_try p kid now (v, ok keys) = retry_key p kid now (v, find_key lib.base64 keys kid)

  unfoldable pub resolve_key : Validator → Provider → String → ℕ → Validator × Attempt PublicKey
  unfolding get_jwks
  resolve_key v p kid now = first_try p kid now (get_jwks v p false now)

  abbrev pub claims_of : String → MapClaims → Claims
  claims_of issuer c = record {
    client_id = if c.client_id == "" then c.azp else c.client_id;
    subject = c.sub;
    issuer = issuer;
    scopes = extract_scopes c.scope;
    exp = c.exp;
  }

  -- `len(provider.Audience) > 0` and the test of the token's audience
  abbrev pub wrong_audience : List String → List String → Bool
  wrong_audience [] token_aud = false
  wrong_audience (a ∷ auds) token_aud = not (audience_match token_aud (a ∷ auds))

  abbrev pub check_claims : String → Provider → Option MapClaims → Attempt Claims
  check_claims issuer p none = failed not_verified
  check_claims issuer p (some c) =
      if wrong_audience p.audience c.audience
      then failed audience_mismatch
      else ok (claims_of issuer c)

  abbrev pub verify_with :
      String → Unverified → Provider → Validator × Attempt PublicKey → Validator × Attempt Claims
  verify_with tok u p (v, failed e) = (v, failed e)
  verify_with tok u p (v, ok key) =
      (v, if u.method_is_rsa then check_claims u.iss p (lib.parse tok key) else failed not_verified)

  unfoldable pub validate : Validator → String → ℕ → Validator × Attempt Claims
  unfolding resolve_key
  validate v tok now =
      if tok == "" then (v, failed empty_token) else elim (lib.parse_unverified tok) [
        | none ↦ (v, failed malformed)
        | some u ↦ elim (find_provider v.providers u.iss) [
          | none ↦ (v, failed unknown_issuer)
          | some p ↦ verify_with tok u p (resolve_key v p u.kid now)
        ]
      ]
