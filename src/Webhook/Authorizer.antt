-- ===== src/Webhook/Authorizer.antt =====
-- internal/webhook/authorizer.go: `Check`. The request that is sent over the network is an argument
-- that says what comes back; texts of errors are not modelled.
use oauth4os.Common.{ℕ, ◌*◌, String, Bool, false, Option, none, some, List, nat_eq, if◌then◌else◌}
use oauth4os.Common.Dict.{Dict}

pub record Request : Type 0 where
  pub client_id : String
  pub subject : String
  pub scopes : List String
  pub action : String
  pub resource : String
  pub ip : String

pub record Config : Type 0 where
  pub url : String
  pub timeout : ℕ
  pub headers : Dict String
  pub fail_open : Bool

pub record Authorizer : Type 0 where
  pub url : String
  pub client_timeout : ℕ
  pub headers : Dict String

-- The status and the field "allowed" of the body, which may not decode. `none`: nothing came back.
pub record Response : Type 0 where
  pub status : ℕ
  pub allowed : Option Bool

-- in nanoseconds, with 2 seconds by default
unfoldable pub new_authorizer : Config → Authorizer
new_authorizer cfg = record {
  url = cfg.url;
  client_timeout = if nat_eq cfg.timeout 0 then 2000000000 else cfg.timeout * 1000000;
  headers = cfg.headers;
}

abbrev pub allows : Option Bool → Bool
allows none = false
allows (some b) = b

-- whether there is no error
unfoldable pub check : (Authorizer → Request → Option Response) → Authorizer → Request → Bool
check send a req = elim (send a req) [
  | none ↦ false
  | some resp ↦ if nat_eq resp.status 200 then allows resp.allowed else false
]
