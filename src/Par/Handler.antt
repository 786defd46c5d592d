-- ===== src/Par/Handler.antt =====
-- internal/par/handler.go: the handler. The authentication of clients is an argument (`none` where the
-- handler has none); times are numbers of nanoseconds.
use Prim.Native.String.{◌++◌}
use oauth4os.Common.{
  ℕ, ◌+◌, ◌*◌, String, Bool, false, not, ◌&&◌, Option, none, some, List, ◌==◌, ◌!=◌, ltb,
  if◌then◌else◌,
}
use oauth4os.Common.Dict
use oauth4os.Common.Dict.{Dict}
use oauth4os.Common.Text.{fields}

-- The values of the form, and the basic header.
pub record Form : Type 0 where
  pub client_id : String
  pub client_secret : String
  pub basic_auth : Option (String × String)
  pub scope : String
  pub redirect_uri : String
  pub state : String
  pub code_challenge : String
  pub code_challenge_method : String

pub record Request : Type 0 where
  pub client_id : String
  pub scopes : List String
  pub redirect_uri : String
  pub state : String
  pub code_challenge : String
  pub code_method : String
  pub expires_at : ℕ

pub record Handler : Type 0 where
  pub requests : Dict Request

pub data Answer : Type 0 where
  failed : ℕ → String → Answer
  created : String → Answer

unfoldable pub new_handler : Handler
new_handler = record { requests = Dict.empty }

unfoldable pub credentials : Form → String × String
credentials f = elim f.basic_auth [
  | none ↦ (f.client_id, f.client_secret)
  | some (id, secret) ↦ if f.client_id == "" then (id, secret) else (f.client_id, f.client_secret)
]

abbrev pub minute : ℕ
minute = 60 * 1000000000

abbrev pub request_uri : String → String
request_uri random = "urn:ietf:params:oauth:request_uri:" ++ random

abbrev pub request_of : Form → String → ℕ → Request
request_of f client_id now = record {
  client_id = client_id;
  scopes = fields f.scope;
  redirect_uri = f.redirect_uri;
  state = f.state;
  code_challenge = f.code_challenge;
  code_method = f.code_challenge_method;
  expires_at = now + minute;
}

-- `h.authClient != nil && clientSecret != ""`, and the authentication fails
abbrev pub refused : Option (String → String → Bool) → String → String → Bool
refused none id secret = false
refused (some authenticates) id secret = secret != "" && not (authenticates id secret)

-- Push, with the random text as an argument
unfoldable pub push :
    Option (String → String → Bool) → Handler → Form → String → ℕ → Handler × Answer
unfolding credentials
push auth_client h f random now =
    let (id, secret) = credentials f in
    if id == ""
    then (h, failed 400 "invalid_request")
    else if refused auth_client id secret
    then (h, failed 401 "invalid_client")
    else (
      record { requests = Dict.put h.requests (request_uri random) (request_of f id now) },
      created (request_uri random),
    )

-- The entry is removed, and is given if it is in time.
unfoldable pub resolve : Handler → String → ℕ → Handler × Option Request
resolve h uri now = elim (Dict.get h.requests uri) [
  | none ↦ (h, none)
  | some r ↦ (
    record { requests = Dict.remove h.requests uri },
    if ltb r.expires_at now then none else some r,
  )
]

unfoldable pub cleanup : Handler → ℕ → Handler
cleanup h now = record { requests = Dict.sweep h.requests (λ r. ltb r.expires_at now) }
