-- ===== src/Exchange/Examples.antt =====
-- internal/exchange/handler.go: the theorem at one token of a provider.
use oauth4os.Common.{true, ◌≡◌, refl, none, some, [], ◌∷◌}
use oauth4os.Common.Dict
use oauth4os.Common.Text.{fields, join}
use oauth4os.Token.State.{Draw, new_manager}
use oauth4os.Token.Grant.{create_token_for_client, access_id}
use oauth4os.Jwt.Keys.{Provider, JwksKey, find_provider, find_key, audience_match}
use oauth4os.Jwt.Validator as Jwt
use oauth4os.Jwt.Validator.{
  Library, MapClaims, text, new_validator, validate, resolve_key, get_jwks, extract_scopes,
}
use oauth4os.Jwt.Sound.{Vouched}
use oauth4os.Exchange.Handler.{Form, SubjectClaims, Parts, Granted, serve, scopes_for}
use oauth4os.Exchange.Granting.{Stored, serve-Stored}

abbrev provider : Provider
provider = record {
  name = "okta";
  issuer = "https://okta";
  jwks_uri = "https://okta/keys";
  audience = "search" ∷ [];
}

abbrev key : JwksKey
key = record { kid = "k1"; kty = "RSA"; alg = "RS256"; n = "AQ"; e = "Aw" }

abbrev claims : MapClaims
claims = record {
  audience = "search" ∷ [];
  scope = text "read:logs";
  client_id = "app";
  azp = "";
  sub = "ann";
  exp = 99;
}

abbrev network : Library
network = record {
  parse_unverified = λ t. some (record { iss = "https://okta"; kid = "k1"; method_is_rsa = true });
  parse = λ t k. some claims;
  get = λ u. some (record { status = 200; body = u });
  decode_jwks = λ b. some (key ∷ []);
  decode_discovery = λ b. none;
  base64 = λ s. some (1 ∷ []);
}

abbrev parts : Parts
parts = record { validator = new_validator (provider ∷ []); manager = new_manager }

abbrev draw : Draw
draw = record { now = 63000000000000000000; token_id = "a1"; refresh_id = "a2"; jti = "a3" }

abbrev form : Form
form = record {
  subject_token = "a.b.c";
  subject_token_type = "";
  actor_token = "";
  scope = "admin";
}

abbrev answer : Granted
answer = record { access_token = "tok_a1"; scope = "admin"; act = none }

serve-Stored_example :
    (j : Jwt.Claims) × (c : SubjectClaims) × Vouched network parts.validator
      (validate network parts.validator "a.b.c" draw.now).0
      "a.b.c"
      draw.now
      j
    × (record { subject = j.client_id; issuer = j.issuer; scopes = j.scopes } ≡ c)
    × Stored network draw (serve network draw parts form).0 answer c (scopes_for "admin" c)
unfolding serve validate find_provider new_validator resolve_key get_jwks Dict.get Dict.empty
    find_key audience_match extract_scopes fields create_token_for_client new_manager access_id join
serve-Stored_example = serve-Stored network draw parts form answer refl
