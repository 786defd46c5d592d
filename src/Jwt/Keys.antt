-- ===== src/Jwt/Keys.antt =====
-- internal/jwt/validator.go: providers, key sets, and the choice of a key. base64 is an argument; an
-- exponent is below 2^63.
use oauth4os.Common.{
  ℕ, ◌+◌, ◌*◌, String, Bool, false, ◌&&◌, ◌||◌, Option, none, some, List, [], ◌∷◌, ◌==◌, contains,
  if◌then◌else◌,
}

-- Why a token is refused; the texts of the errors are not modelled.
pub data Failure : Type 0 where
  empty_token malformed unknown_issuer discovery_failed fetch_failed decode_failed no_key bad_key
        not_verified audience_mismatch :
      Failure

pub data Attempt (A : Type 0) : Type 0 where
  ok : A → Attempt A
  failed : Failure → Attempt A

-- config.Provider
pub record Provider : Type 0 where
  pub name : String
  pub issuer : String
  pub jwks_uri : String
  pub audience : List String

pub record JwksKey : Type 0 where
  pub kid : String
  pub kty : String
  pub alg : String
  pub n : String
  pub e : String

pub record JwksSet : Type 0 where
  pub keys : List JwksKey
  pub fetched_at : ℕ

pub record PublicKey : Type 0 where
  pub n : ℕ
  pub e : ℕ

-- big.Int.SetBytes
unfoldable pub set_bytes : List ℕ → ℕ → ℕ
set_bytes [] acc = acc
set_bytes (b ∷ bs) acc = set_bytes bs (acc * 256 + b)

unfoldable pub parse_rsa_key : (String → Option (List ℕ)) → JwksKey → Attempt PublicKey
unfolding set_bytes
parse_rsa_key decode k = elim (decode k.n) [
  | none ↦ failed bad_key
  | some n_bytes ↦ elim (decode k.e) [
    | none ↦ failed bad_key
    | some e_bytes ↦ ok (record { n = set_bytes n_bytes 0; e = set_bytes e_bytes 0 })
  ]
]

-- the first loop of findKey, and with an empty key id the second
unfoldable pub first_key : (JwksKey → Bool) → List JwksKey → Option JwksKey
first_key fits [] = none
first_key fits (k ∷ ks) = let rest = first_key fits ks in if fits k then some k else rest

abbrev pub has_kid : String → JwksKey → Bool
has_kid kid k = k.kid == kid && k.kty == "RSA"

abbrev pub is_rsa : JwksKey → Bool
is_rsa k = k.kty == "RSA"

unfoldable pub find_key : (String → Option (List ℕ)) → List JwksKey → String → Attempt PublicKey
unfolding first_key parse_rsa_key
find_key decode keys kid = elim (first_key (has_kid kid) keys) [
  | some k ↦ parse_rsa_key decode k
  | none ↦
      if kid == ""
      then elim (first_key is_rsa keys) [ some k ↦ parse_rsa_key decode k | none ↦ failed no_key ]
      else failed no_key
]

unfoldable pub audience_match : List String → List String → Bool
audience_match [] expected = false
audience_match (t ∷ ts) expected = contains expected t || audience_match ts expected

unfoldable pub find_provider : List Provider → String → Option Provider
find_provider [] issuer = none
find_provider (p ∷ ps) issuer =
    let rest = find_provider ps issuer in if p.issuer == issuer then some p else rest

-- `provider.JWKSURI = uri`, through the pointer that findProvider gave
unfoldable pub set_uri : List Provider → String → String → List Provider
set_uri [] issuer uri = []
set_uri (p ∷ ps) issuer uri =
    let rest = set_uri ps issuer uri in
    if p.issuer == issuer then record p { jwks_uri = uri } ∷ ps else p ∷ rest
