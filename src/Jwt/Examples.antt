-- ===== src/Jwt/Examples.antt =====
-- internal/jwt/validator.go: the theorem at a provider whose key set has to be fetched.
use oauth4os.Common.{true, refl, none, some, [], ◌∷◌}
use oauth4os.Common.Dict
use oauth4os.Common.Dict.{Dict}
use oauth4os.Common.Text.{fields}
use oauth4os.Jwt.Keys.{Provider, JwksKey, find_provider, find_key, audience_match}
use oauth4os.Jwt.Validator.{
  Library, Claims, Validator, MapClaims, text, new_validator, validate, resolve_key, get_jwks,
  extract_scopes,
}
use oauth4os.Jwt.Sound.{Vouched, validate-Vouched}

abbrev provider : Provider
provider = record {
  name = "okta";
  issuer = "https://okta";
  jwks_uri = "https://okta/keys";
  audience = "search" ∷ [];
}

abbrev key : JwksKey
key = record { kid = "k1"; kty = "RSA"; alg = "RS256"; n = "AQ"; e = "Aw" }

abbrev claims : MapClaims
claims = record {
  audience = "search" ∷ [];
  scope = text "read:logs";
  client_id = "app";
  azp = "";
  sub = "ann";
  exp = 99;
}

abbrev network : Library
network = record {
  parse_unverified = λ t. some (record { iss = "https://okta"; kid = "k1"; method_is_rsa = true });
  parse = λ t k. some claims;
  get = λ u. some (record { status = 200; body = u });
  decode_jwks = λ b. some (key ∷ []);
  decode_discovery = λ b. none;
  base64 = λ s. some (1 ∷ []);
}

abbrev validator : Validator
validator = new_validator (provider ∷ [])

abbrev found : Claims
found = record {
  client_id = "app";
  subject = "ann";
  issuer = "https://okta";
  scopes = "read:logs" ∷ [];
  exp = 99;
}

validate-Vouched_example :
    Vouched network validator (validate network validator "a.b.c" 5).0 "a.b.c" 5 found
unfolding validate find_provider new_validator resolve_key get_jwks Dict.get Dict.empty find_key
    audience_match extract_scopes fields
validate-Vouched_example = validate-Vouched network validator "a.b.c" 5 found refl
