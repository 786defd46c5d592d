-- ===== src/Proxy/Examples.antt =====
-- cmd/proxy/main.go: the theorems at a gateway with one policy and one token of its own.
use Prim.Native.String.{◌++◌}
use oauth4os.Common.{ℕ, String, ◌≡◌, refl, true, false, none, some, [], ◌∷◌}
use oauth4os.Common.Dict
use oauth4os.Common.Dict.{Dict}
use oauth4os.Common.Text.{has_prefix}
use oauth4os.Common.Text.Cut.{trim_prefix, drop_as}
use oauth4os.Common.Dict.Count.{count_where}
use oauth4os.Token.State.{Token, new_manager}
use oauth4os.Session.Manager as Session
use oauth4os.TokenBind.Binder as Binder
use oauth4os.TokenBind.Binder.{verify, bind, fingerprint}
use oauth4os.Token.Maintain.{lookup, touch_token}
use oauth4os.ApiKey.Store as ApiKey
use oauth4os.RateLimit.Limiter as RateLimit
use oauth4os.Jwt.Validator as Jwt
use oauth4os.Jwt.Validator.{Claims}
use oauth4os.Cache.Store as Cache
use oauth4os.Circuit.Breaker as Circuit
use oauth4os.Cedar.Engine.{
  Match, Policy, permit, evaluate, applies, matches_target, eval_conditions,
}
use oauth4os.Cedar.Tenant.{new_tenant_engine, evaluate_for}
use oauth4os.Scope.Mapper.{new_mapper, map_for_issuer, resolve}
use oauth4os.IpFilter.Filter.{err}
use oauth4os.Dpop.Proofs as Dpop
use oauth4os.Proxy.Request.{Identity, Request, Gateway, World}
use oauth4os.Proxy.Gateway.{serve, target_of, webhook_refused}
use oauth4os.Proxy.Stages.{fp_of}
use oauth4os.Proxy.Checks.{Checked, serve-Checked}
use oauth4os.Proxy.Claimed.{claiming, named, serve-unclaimed}
use oauth4os.Proxy.Bindings.{serve_all-one_client}
use oauth4os.Proxy.Keyed.{with_other, serve-unseen}

abbrev key_text : String
key_text = "tok_0123456789abcdef"

abbrev other_text : String
other_text = "tok_0123456789ab9999"

abbrev token : String → Token
token id = record {
  id = id;
  client_id = "app";
  scopes = "read:logs" ∷ [];
  created_at = 0;
  expires_at = 9000000000000;
  revoked = false;
  refresh_token = "";
  refresh_expires_at = 0;
  family_created_at = 0;
  dpop_thumbprint = "";
}

abbrev anyone : Match
anyone = record { any = true; equals = ""; pattern_text = "" }

abbrev permit_all : Policy
permit_all = record {
  id = "p1";
  effect = permit;
  principal = anyone;
  action = anyone;
  resource = anyone;
  when = [];
  unless = [];
}

abbrev gateway : Gateway ℕ
gateway = record {
  tokens = record new_manager {
    tokens = Dict.put (Dict.put Dict.empty key_text (token key_text)) other_text (token other_text);
  };
  sessions = Session.new none;
  binder = Binder.new;
  keys = ApiKey.new_store;
  limiter = RateLimit.new Dict.empty 0;
  validator = Jwt.new_validator [];
  responses = Cache.new 10 10;
  breaker = Circuit.new 3 10;
  policies = new_tenant_engine (permit_all ∷ []);
  mapper = new_mapper (
      Dict.put Dict.empty "read:logs"
        (record { backend_user = ""; backend_roles = "logs_read" ∷ [] }));
  ip_rules = none;
  router = none;
  webhook = none;
  certificates = none;
}

abbrev world : ℕ → World ℕ ℕ
world now = record {
  now = now;
  jwt = record {
    parse_unverified = λ t. none;
    parse = λ t k. none;
    get = λ u. none;
    decode_jwks = λ b. none;
    decode_discovery = λ b. none;
    base64 = λ s. none;
  };
  dpop = record {
    base64 = λ s. none;
    decode_header = λ s. none;
    decode_payload = λ s. none;
    thumbprint = λ s. "";
  };
  net = record {
    parse_cidr = λ s. err "no network";
    contains_ip = λ n i. false;
    split_host_port = λ s. some s;
    parse_ip = λ s. none;
    show_ip = λ i. "";
    quote = λ s. s;
  };
  sha256_hex = λ s. s;
  to_lower = λ s. s;
  send = λ a q. none;
  upstream = λ t q who. 200;
}

abbrev request : String → Request
request id = record {
  method = "GET";
  path = "/logs/_search";
  uri = "/logs/_search";
  authorization = "Bearer " ++ id;
  api_key = "";
  dpop = "";
  user_agent = "curl";
  remote_addr = "10.0.0.1";
  certificate = none;
  claimed = record { user = ""; roles = ""; scopes = ""; key_id = "" };
}

abbrev forged : Identity
forged = record { user = "root"; roles = "admin"; scopes = "all"; key_id = "k9" }

abbrev plain : Request
plain = record (request key_text) { authorization = ""; api_key = "oak_1" }

serve-Checked_example : (c : Claims) × Checked (world 5) gateway (request key_text) key_text c
unfolding serve has_prefix Jwt.validate trim_prefix drop_as new_manager Dict.put Dict.empty Dict.get
    lookup Session.new Binder.new Jwt.new_validator new_tenant_engine new_mapper Session.create
    Session.touch touch_token verify bind map_for_issuer resolve evaluate_for evaluate applies
    matches_target eval_conditions Circuit.new Circuit.allow Circuit.record_status Cache.new
    Cache.get target_of fingerprint count_where Dpop.validate Session.get_limit Session.count_locked
    webhook_refused Dict.adjust
serve-Checked_example = serve-Checked (world 5) gateway (request key_text) refl tt

serve_all-one_client_example :
    fp_of (world 5) (request key_text) ≡ fp_of (world 7) (request other_text)
unfolding serve has_prefix Jwt.validate trim_prefix drop_as new_manager Dict.put Dict.empty Dict.get
    lookup Session.new Binder.new Jwt.new_validator new_tenant_engine new_mapper Session.create
    Session.touch touch_token verify bind map_for_issuer resolve evaluate_for evaluate applies
    matches_target eval_conditions Circuit.new Circuit.allow Circuit.record_status Cache.new
    Cache.get target_of fingerprint count_where Dpop.validate Session.get_limit Session.count_locked
    webhook_refused Dict.adjust
serve_all-one_client_example =
    serve_all-one_client (world 5) (world 7) ((world 6, request key_text) ∷ []) gateway
      (request key_text) (request other_text) refl refl refl tt tt

serve-unseen_example :
    (serve
      (world 5)
      (with_other gateway
        (new_tenant_engine [])
        none
        none
        (Session.new none)
        Binder.new
        (Circuit.new 0 0))
      plain).1
    ≡ (serve (world 5) gateway plain).1
unfolding has_prefix
serve-unseen_example =
    serve-unseen (world 5) gateway plain (new_tenant_engine []) none none (Session.new none)
      Binder.new (Circuit.new 0 0) refl

serve-unclaimed_example :
    named (serve (world 5) gateway (claiming (request key_text) forged)).1
    ≡ named (serve (world 5) gateway (request key_text)).1
serve-unclaimed_example = serve-unclaimed (world 5) gateway (request key_text) forged
