-- ===== src/Proxy/Gateway.antt =====
-- cmd/proxy/main.go: the handler, with the calls of the components in the order of the source and its
-- early returns. Counters, spans, logs and request ids are left out.
use Prim.Native.String.{◌++◌, slice, len}
use oauth4os.Common.{
  String, Bool, true, false, not, ◌&&◌, Option, none, some, List, [], ◌∷◌, ◌==◌, ltb, if◌then◌else◌,
}
use oauth4os.Common.Dict
use oauth4os.Common.Dict.{Dict}
use oauth4os.Common.Text.{has_prefix, join}
use oauth4os.Common.Text.Cut.{trim_prefix}
use oauth4os.Token.State.{Token}
use oauth4os.Token.Maintain.{verify_dpop, touch_token}
use oauth4os.Token.Maintain as Tokens
use oauth4os.Session.Manager as Session
use oauth4os.TokenBind.Binder.{bind, verify, fingerprint}
use oauth4os.ApiKey.Store as ApiKey
use oauth4os.RateLimit.Limiter as RateLimit
use oauth4os.Jwt.Keys.{Attempt, ok, failed}
use oauth4os.Jwt.Validator.{Claims}
use oauth4os.Jwt.Validator as Jwt
use oauth4os.Cache.Store as Cache
use oauth4os.Circuit.Breaker as Circuit
use oauth4os.Cedar.Engine as Cedar
use oauth4os.Cedar.Tenant.{evaluate_for}
use oauth4os.Scope.Mapper.{map_scopes, map_for_issuer}
use oauth4os.IpFilter.Filter as IpFilter
use oauth4os.Federation.Router as Federation
use oauth4os.Webhook.Authorizer as Webhook
use oauth4os.Mtls.Clients as Mtls
use oauth4os.Dpop.Proofs as Dpop
use oauth4os.Proxy.Request.{
  Request, anonymous, by_key, by_certificate, by_token, Target, engine, dashboards, cluster, Answer,
  denied, aborted, cached, forwarded, Gateway, World, extract_index,
}

module _ {Net Ip : Type 0} (w : World Net Ip) where
  -- a request with an API key: neither the filters nor the policies below see it
  unfoldable pub serve_key : Gateway Net → Request → Gateway Net × Answer
  serve_key g r =
      let (keys, found) = ApiKey.validate g.keys r.api_key w.now in
      elim found [
        | none ↦ (record g { keys = keys }, denied 401 "invalid_api_key")
        | some c ↦
            let (limiter, fine) =
              RateLimit.allow g.limiter ("apikey:" ++ c.key_id) c.scopes w.now in
            (
              record g { keys = keys; limiter = limiter },
              if fine
                  then forwarded engine
                      (by_key c.client_id c.scopes c.key_id (map_scopes g.mapper c.scopes))
                  else denied 429 "rate_limit_exceeded",
            )
      ]

  -- the entry of the certificate, where certificates are configured
  abbrev pub entry_for : Gateway Net → Request → Option Mtls.ClientEntry
  entry_for g r = elim g.certificates [
    | none ↦ none
    | some m ↦ Mtls.identify w.to_lower m r.certificate
  ]

  -- a request without a bearer token
  unfoldable pub serve_open : Gateway Net → Request → Gateway Net × Answer
  unfolding serve_key
  serve_open g r =
      if r.api_key == ""
      then elim (entry_for g r) [
        | none ↦ (g, forwarded engine (anonymous r.claimed))
        | some e ↦ (g, forwarded engine (by_certificate r.claimed e.client_id e.scopes))
      ]
      else serve_key g r

  -- the claims of a token of the proxy itself; the client is its subject only
  abbrev pub own_claims : Token → Claims
  own_claims tok = record {
    client_id = "";
    subject = tok.client_id;
    issuer = "oauth4os";
    scopes = tok.scopes;
    exp = 0;
  }

  abbrev pub live_claims : Option Token → Option Claims
  live_claims none = none
  live_claims (some tok) =
      if not tok.revoked && ltb w.now tok.expires_at then some (own_claims tok) else none

  abbrev pub claims_or_own : Attempt Claims → Option Token → Option Claims
  claims_or_own (ok c) found = some c
  claims_or_own (failed e) found = live_claims found

  -- the validator, and where it fails the proxy's own tokens
  unfoldable pub identify : Gateway Net → String → Gateway Net × Option Claims
  identify g tok =
      let (validator, result) = Jwt.validate w.jwt g.validator tok w.now in
      (record g { validator = validator }, claims_or_own result (Tokens.lookup g.tokens tok))

  abbrev pub wrong_key : Gateway Net → String → Dpop.Verdict → Bool
  wrong_key g tok (Dpop.proven p) = not (verify_dpop g.tokens tok p.jwk_thumbprint)
  wrong_key g tok Dpop.bad = false
  wrong_key g tok Dpop.not_required = false

  -- a proof that is there, is valid, and is of another key than the token's
  unfoldable pub dpop_refused : Gateway Net → Request → String → Bool
  dpop_refused g r tok = wrong_key g tok (Dpop.validate w.dpop r.dpop r.method w.now)

  abbrev pub is_error : Option String → Bool
  is_error none = false
  is_error (some e) = true

  unfoldable pub ip_refused : Gateway Net → Request → Claims → Bool
  ip_refused g r c = elim g.ip_rules [
    | none ↦ false
    | some rules ↦ is_error (IpFilter.check w.net rules c.client_id r.remote_addr)
  ]

  -- `tokenStr[:16]`
  abbrev pub session_key : String → String
  session_key tok = slice tok 0 16

  -- the session is made or made anew, and it and the token are touched
  abbrev pub tracked : Gateway Net → Session.Manager → String → Gateway Net
  tracked g sessions tok = record g {
    sessions = Session.touch sessions (session_key tok) w.now;
    tokens = (touch_token g.tokens w.now tok 3600000000000).0;
  }

  abbrev pub request_of : Request → Claims → Cedar.Request
  request_of r c = record {
    principal = Dict.put (Dict.put Dict.empty "sub" c.client_id) "scope" (join c.scopes ",");
    action = r.method;
    resource = Dict.put (Dict.put Dict.empty "index" (extract_index r.path)) "path" r.path;
  }

  unfoldable pub webhook_refused : Gateway Net → Request → Claims → Bool
  webhook_refused g r c = elim g.webhook [
    | none ↦ false
    | some a ↦ not (
        Webhook.check w.send a (record {
          client_id = c.client_id;
          subject = c.subject;
          scopes = c.scopes;
          action = r.method;
          resource = r.path;
          ip = r.remote_addr;
        }))
  ]

  -- which upstream a request goes to
  unfoldable pub target_of : Gateway Net → Request → Target
  target_of g r = elim g.router [
    | none ↦ if has_prefix r.path "/api/" then dashboards else engine
    | some router ↦ elim (Federation.route router r.path) [ none ↦ engine | some url ↦ cluster url ]
  ]

  abbrev pub cached_response : Gateway Net → Request → Claims → Option Cache.Entry
  cached_response g r c =
      if r.method == "GET"
      then Cache.get g.responses (c.client_id ++ (":" ++ r.uri)) w.now
      else none

  -- the last part: the response cache, the breaker, the upstream
  unfoldable pub deliver : Gateway Net → Request → Claims → List String → Gateway Net × Answer
  deliver g r c roles = elim (cached_response g r c) [
    | some e ↦ (g, cached e)
    | none ↦
        let (breaker, fine) = Circuit.allow g.breaker w.now in
        let to = target_of g r in
        let who = by_token r.claimed c.client_id roles c.scopes in
        if fine
        then (
          record g { breaker = Circuit.record_status breaker (w.upstream to r who) w.now },
          forwarded to who,
        )
        else (record g { breaker = breaker }, denied 503 "circuit_open")
  ]

  -- roles, policies and the webhook
  unfoldable pub authorize : Gateway Net → Request → Claims → Gateway Net × Answer
  unfolding deliver
  authorize g r c = elim (map_for_issuer g.mapper c.issuer c.scopes) [
    | [] ↦ (g, denied 403 "insufficient_scope")
    | role ∷ roles ↦
        if not (evaluate_for g.policies c.issuer (request_of r c)).allowed
        then (g, denied 403 "forbidden")
        else if webhook_refused g r c
        then (g, denied 403 "forbidden")
        else deliver g r c (role ∷ roles)
  ]

  -- the binding of the token to the client that showed it first
  unfoldable pub check_binding : Gateway Net → Request → String → Claims → Gateway Net × Answer
  unfolding authorize
  check_binding g r tok c =
      let fp = fingerprint w.sha256_hex w.net.split_host_port r.remote_addr r.user_agent in
      if not (verify g.binder (session_key tok) fp)
      then (g, denied 401 "token_binding_mismatch")
      else authorize (record g { binder = bind g.binder (session_key tok) fp }) r c

  -- the session of the token
  unfoldable pub track : Gateway Net → Request → String → Claims → Gateway Net × Answer
  unfolding check_binding
  track g r tok c =
      if ltb (len tok) 16
      then (g, aborted)
      else let (sessions, fine) =
          Session.create g.sessions (session_key tok) c.client_id (session_key tok) r.remote_addr
            w.now in
        if fine
        then check_binding (tracked g sessions tok) r tok c
        else (g, denied 429 "session_limit_exceeded")

  -- a request with a bearer token
  unfoldable pub serve_token : Gateway Net → Request → String → Gateway Net × Answer
  unfolding identify dpop_refused ip_refused track
  serve_token g r tok =
      let (g', who) = identify g tok in
      elim who [
        | none ↦ (g', denied 401 "invalid_token")
        | some c ↦
            if dpop_refused g' r tok
            then (g', denied 401 "invalid_dpop_proof")
            else if ip_refused g' r c
            then (g', denied 403 "ip_denied")
            else track g' r tok c
      ]

  unfoldable pub serve : Gateway Net → Request → Gateway Net × Answer
  unfolding serve_open serve_token
  serve g r =
      if has_prefix r.authorization "Bearer "
      then serve_token g r (trim_prefix r.authorization "Bearer ")
      else serve_open g r
