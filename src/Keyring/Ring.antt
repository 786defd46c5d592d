-- ===== src/Keyring/Ring.antt =====
-- internal/keyring/keyring.go: the ring and its rotation. Making an RSA key, SHA-256 and base64 are a
-- parameter; the loop of the ticker is one rotation per tick.
use oauth4os.Common.{ℕ, String, Bool, true, false, Option, none, some, List, [], ◌∷◌, ◌++◌}

-- The key pair is of a type that the library has.
pub record Key (P : Type 0) : Type 0 where
  pub id : String
  pub private : P
  pub created_at : ℕ

pub record Ring (P : Type 0) : Type 0 where
  pub current : Option (Key P)
  pub previous : Option (Key P)

pub record Jwk : Type 0 where
  pub kty : String
  pub usage : String
  pub kid : String
  pub alg : String
  pub n : String
  pub e : String

-- The modulus and the exponent as bytes in base64, and the identifier that the modulus hashes to.
pub record Library (P : Type 0) : Type 0 where
  pub modulus : P → String
  pub exponent : P → String
  pub gen_kid : P → String

module _ {P : Type 0} (lib : Library P) where
  -- `rotate`, with what making a key gives (`none` for an error): the ring, and whether it went well
  unfoldable pub rotate : Ring P → Option P → ℕ → Ring P × Bool
  rotate r none now = (r, false)
  rotate r (some priv) now = (
    record {
      previous = r.current;
      current = some (record { id = lib.gen_kid priv; private = priv; created_at = now });
    },
    true,
  )

  -- New: no ring where the first key cannot be made
  unfoldable pub new : Option P → ℕ → Option (Ring P)
  unfolding rotate
  new made now =
      let (r, fine) = rotate (record { current = none; previous = none }) made now in
      elim fine [ true ↦ some r | false ↦ none ]

  abbrev pub to_jwk : Key P → Jwk
  to_jwk k = record {
    kty = "RSA";
    usage = "sig";
    kid = k.id;
    alg = "RS256";
    n = lib.modulus k.private;
    e = lib.exponent k.private;
  }

  abbrev pub jwk_list : Option (Key P) → List Jwk
  jwk_list none = []
  jwk_list (some k) = to_jwk k ∷ []

  -- JWKSHandler
  unfoldable pub jwks : Ring P → List Jwk
  jwks r = jwk_list r.current ++ jwk_list r.previous
