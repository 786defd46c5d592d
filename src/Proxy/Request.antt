-- ===== src/Proxy/Request.antt =====
-- cmd/proxy/main.go: what the handler reads of a request, what it answers, and its state.
use oauth4os.Common.{ℕ, String, Option, none, some, List, ◌==◌, if◌then◌else◌}
use oauth4os.Common.Text.{join}
use oauth4os.Common.Text.Cut.{trim_prefix, cut_at}
use oauth4os.Token.State.{Manager}
use oauth4os.Session.Manager as Session
use oauth4os.TokenBind.Binder.{Binder}
use oauth4os.ApiKey.Store.{Store}
use oauth4os.RateLimit.Limiter.{Limiter}
use oauth4os.Jwt.Validator.{Validator}
use oauth4os.Jwt.Validator as Jwt
use oauth4os.Cache.Store.{Cache, Entry}
use oauth4os.Circuit.Breaker.{Breaker}
use oauth4os.Cedar.Tenant.{TenantEngine}
use oauth4os.Scope.Mapper.{Mapper}
use oauth4os.IpFilter.Filter.{Rules}
use oauth4os.IpFilter.Filter as IpFilter
use oauth4os.Federation.Router.{Router}
use oauth4os.Webhook.Authorizer.{Authorizer}
use oauth4os.Webhook.Authorizer as Webhook
use oauth4os.Mtls.Clients.{ClientMap, Certificate}
use oauth4os.Dpop.Proofs as Dpop

-- The headers X-Proxy-User, X-Proxy-Roles, X-Proxy-Scopes and X-Proxy-Key-ID.
pub record Identity : Type 0 where
  pub user : String
  pub roles : String
  pub scopes : String
  pub key_id : String

-- A header that is missing reads as "". The certificate is the first of the peer's, if there is one;
-- `claimed` is what the caller itself wrote into the headers of `Identity`.
pub record Request : Type 0 where
  pub method : String
  pub path : String
  pub uri : String
  pub authorization : String
  pub api_key : String
  pub dpop : String
  pub user_agent : String
  pub remote_addr : String
  pub certificate : Option Certificate
  pub claimed : Identity

-- the headers after Set and Del, on each of the ways through the handler
abbrev pub anonymous : Identity → Identity
anonymous i = record i { user = ""; roles = ""; scopes = "" }

abbrev pub by_key : String → List String → String → List String → Identity
by_key client scopes key_id roles = record {
  user = client;
  roles = join roles ",";
  scopes = join scopes ",";
  key_id = key_id;
}

abbrev pub by_certificate : Identity → String → List String → Identity
by_certificate i client scopes = record i { user = client; roles = join scopes "," }

abbrev pub by_token : Identity → String → List String → List String → Identity
by_token i client roles scopes = record i {
  user = client;
  roles = join roles ",";
  scopes = join scopes ",";
}

pub data Target : Type 0 where
  engine dashboards : Target
  cluster : String → Target

-- `aborted` is a panic, after which net/http drops the connection.
pub data Answer : Type 0 where
  denied : ℕ → String → Answer
  aborted : Answer
  cached : Entry → Answer
  forwarded : Target → Identity → Answer

pub record Gateway (Net : Type 0) : Type 0 where
  pub tokens : Manager
  pub sessions : Session.Manager
  pub binder : Binder
  pub keys : Store
  pub limiter : Limiter
  pub validator : Validator
  pub responses : Cache
  pub breaker : Breaker
  pub policies : TenantEngine
  pub mapper : Mapper
  pub ip_rules : Option (Rules Net)
  pub router : Option Router
  pub webhook : Option Authorizer
  pub certificates : Option ClientMap

-- What comes from outside during one call: the clock, the libraries, the network, and the status that
-- each upstream answers a request with.
pub record World (Net Ip : Type 0) : Type 0 where
  pub now : ℕ
  pub jwt : Jwt.Library
  pub dpop : Dpop.Library
  pub net : IpFilter.Library Net Ip
  pub sha256_hex : String → String
  pub to_lower : String → String
  pub send : Authorizer → Webhook.Request → Option Webhook.Response
  pub upstream : Target → Request → Identity → ℕ

-- the function extractIndex
unfoldable pub extract_index : String → String
extract_index path =
    let rest = trim_prefix path "/" in
    elim (cut_at b'/' rest) [
      | none ↦ rest
      | some (before, after) ↦ if before == "" then rest else before
    ]
