-- ===== src/Token/State.antt =====
-- internal/token/manager.go: the types, `NewManager` and its settings. A `time.Time` is a number
-- of nanoseconds since Go's zero time, so `IsZero` is `= 0`; a duration is a number of nanoseconds,
-- and none is negative. Go's maps of pointers are dictionaries whose entries are written in place.
use oauth4os.Common.{ℕ, ◌*◌, ◌/◌, ◌-◌, String, Bool, false, true, Option, none, some, List}
use oauth4os.Common.Dict
use oauth4os.Common.Dict.{Dict}

pub record Token : Type 0 where
  pub id : String
  pub client_id : String
  pub scopes : List String
  pub created_at : ℕ
  pub expires_at : ℕ
  pub revoked : Bool
  pub refresh_token : String
  pub refresh_expires_at : ℕ
  pub family_created_at : ℕ
  pub dpop_thumbprint : String

pub record Client : Type 0 where
  pub id : String
  pub secret : String
  pub scopes : List String
  pub redirect_uris : List String

-- The claims of a signed access token; `cnf` is there for a token that is bound to a DPoP key.
pub record Claims : Type 0 where
  pub iss : String
  pub sub : String
  pub client_id : String
  pub scope : String
  pub iat : ℕ
  pub exp : ℕ
  pub jti : String
  pub cnf : Option String

-- The key provider with the library calls around it: JSON and base64url encoding of the header
-- for a key id and of the claims, and the base64url RSA signature, which may fail.
pub record KeyProvider : Type 0 where
  pub current_kid : String
  pub encode_header : String → String
  pub encode_claims : Claims → String
  pub sign : String → Option String

pub record Manager : Type 0 where
  pub tokens : Dict Token
  pub refresh : Dict String
  pub used_refresh : Dict String
  pub families : Dict (List String)
  pub clients : Dict Client
  pub jwt_enabled : Bool
  pub issuer : String
  pub key_provider : Option KeyProvider
  pub refresh_ttl : ℕ
  pub refresh_max_life : ℕ

abbrev pub second : ℕ
second = 1000000000

abbrev pub hour : ℕ
hour = 3600 * second

abbrev pub default_token_expiry_seconds : ℕ
default_token_expiry_seconds = 3600

-- Time.Unix, for times after 1970
abbrev pub unix : ℕ → ℕ
unix t = t / second - 62135596800

unfoldable pub new_manager : Manager
new_manager = record {
  tokens = Dict.empty;
  refresh = Dict.empty;
  used_refresh = Dict.empty;
  families = Dict.empty;
  clients = Dict.empty;
  jwt_enabled = false;
  issuer = "";
  key_provider = none;
  refresh_ttl = 30 * 24 * hour;
  refresh_max_life = 90 * 24 * hour;
}

unfoldable pub set_refresh_ttl : Manager → ℕ → ℕ → Manager
set_refresh_ttl m ttl max_life = record m { refresh_ttl = ttl; refresh_max_life = max_life }

unfoldable pub enable_jwt : Manager → String → KeyProvider → Manager
enable_jwt m issuer kp = record m { jwt_enabled = true; issuer = issuer; key_provider = some kp }

-- What one call draws from outside: the clock, and the random part of the names that it makes.
pub record Draw : Type 0 where
  pub now : ℕ
  pub token_id : String
  pub refresh_id : String
  pub jti : String

-- The request, as the handlers read it: FormValue gives "" for a field that is missing.
pub record Form : Type 0 where
  pub grant_type : String
  pub client_id : String
  pub client_secret : String
  pub scope : String
  pub refresh_token : String
  pub token : String
  pub token_type_hint : String
  pub basic_auth : Option (String × String)

pub record TokenBody : Type 0 where
  pub access_token : String
  pub token_type : String
  pub expires_in : ℕ
  pub refresh_token : String
  pub scope : String

pub data Reply : Type 0 where
  granted : TokenBody → Reply
  failed : ℕ → String → String → Reply
  found : Token → Reply
  status : ℕ → Reply
