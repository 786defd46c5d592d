-- ===== src/Proxy/Checks.antt =====
-- cmd/proxy/main.go: what a request with a bearer token has behind it when it is let through.
use oauth4os.Common.{
  String, ◌≡◌, ◌⊎◌, refl, sym, ap, ◌∙◌, inl, inr, true, not, ◌&&◌, none, some, List, Any, All,
  Bool-cases, Option-cases, eq_of_some-eq, ltb, arith,
}
use oauth4os.Common.Dict
use oauth4os.Common.Text.{has_prefix}
use oauth4os.Common.Text.Cut.{trim_prefix}
use oauth4os.Token.State.{Token}
use oauth4os.Token.Maintain.{is_valid, lookup}
use oauth4os.Jwt.Keys.{ok}
use oauth4os.Jwt.Validator.{Claims, validate}
use oauth4os.Jwt.Sound.{Vouched, validate-Vouched}
use oauth4os.Jwt.Fresh.{Attempt-cases}
use oauth4os.Cedar.Engine.{Policy, Engine, evaluate}
use oauth4os.Cedar.Tenant.{TenantEngine, evaluate_for}
use oauth4os.Cedar.Decisions.{Permits, Forbids, evaluate-allowed_iff}
use oauth4os.Proxy.Request.{Request, Gateway, World}
use oauth4os.Proxy.Gateway.{identify, own_claims, live_claims, request_of, serve}
use oauth4os.Proxy.Stages.{Granted, Cleared, serve_token-Cleared}

-- The policies that decide the requests of an issuer.
abbrev pub policies_of : TenantEngine → String → List Policy
policies_of te issuer = elim (Dict.get te.tenants issuer) [
  | none ↦ te.global.policies
  | some e ↦ e.policies
]

evaluate_for-policies :
    (te : TenantEngine) (issuer : String)
    → (e : Engine) × (e.policies ≡ policies_of te issuer)
      × ((req : _) → evaluate_for te issuer req ≡ evaluate e req)
unfolding evaluate_for
evaluate_for-policies te issuer = elim (Option-cases (Dict.get te.tenants issuer)) [
  | inl e ↦ (te.global, rw (e, policies_of) refl, λ req. rw (e, policies_of, evaluate_for) refl)
  | inr (eng, e) ↦ (eng, rw (e, policies_of) refl, λ req. rw (e, policies_of, evaluate_for) refl)
]

module _ {Net Ip : Type 0} (w : World Net Ip) where
  -- The claims are those of a token of a configured provider, or of a token of the proxy's own that is
  -- stored, not revoked and not expired.
  abbrev pub Identified : Gateway Net → String → Claims → Type 0
  Identified g tok c =
      Vouched w.jwt g.validator (validate w.jwt g.validator tok w.now).0 tok w.now c
      ⊎ ((t : Token) × (Dict.get g.tokens.tokens tok ≡ some t)
          × (is_valid g.tokens w.now tok ≡ true)
          × (own_claims w t ≡ c))

  identify-Identified :
      (g : Gateway Net) (tok : String) (c : Claims)
      → (identify w g tok).1 ≡ some c
      → Identified g tok c
  unfolding identify lookup is_valid
  identify-Identified g tok c h = elim (Attempt-cases (validate w.jwt g.validator tok w.now).1) [
    | inl (d, e) ↦ inl (
        validate-Vouched w.jwt g.validator tok w.now c
          (e ∙ ap ok (eq_of_some-eq d c (rw (e, identify) at h))))
    | inr (x, e) ↦
        let own : live_claims w (Dict.get g.tokens.tokens tok) ≡ some c = rw (e, identify) at h in
        elim (Option-cases (Dict.get g.tokens.tokens tok)) [
          | inl lost ↦ absurd (ground arith)
          | inr (t, there) ↦ elim (Bool-cases (not t.revoked && ltb w.now t.expires_at)) [
            | inl live ↦ inr (t, there, rw (there, is_valid) live, eq_of_some-eq _ c (ground arith))
            | inr dead ↦ absurd (ground arith)
          ]
        ]
  ]

  -- What stands behind a request that is let through.
  pub record Checked (g : Gateway Net) (r : Request) (tok : String) (c : Claims) : Type 0 where
    pub who : Identified g tok c
    pub cleared : Cleared w g r tok c
    pub permitted : Any (Permits (request_of w r c)) (policies_of g.policies c.issuer)
    pub unforbidden : All (λ p. ¬ Forbids (request_of w r c) p) (policies_of g.policies c.issuer)

  -- A request with a bearer token is handed on, or answered from the cache, only if the token is good
  -- for its provider or is a live one of the proxy's own; the address may come from where it does; the
  -- client is below its limit of sessions; the token is not bound to another client; its scopes stand
  -- for some role; some policy in force for the issuer applies to the request and has an effect other
  -- than "forbid", and none that applies has the effect "forbid"; and the webhook, if there is one,
  -- agrees.
  pub serve-Checked :
      (g : Gateway Net) (r : Request)
      → has_prefix r.authorization "Bearer " ≡ true
      → Granted w (serve w g r).1
      → (c : Claims) × Checked g r (trim_prefix r.authorization "Bearer ") c
  unfolding serve
  serve-Checked g r bearer h =
      let tok = trim_prefix r.authorization "Bearer " in
      let (c, who, cleared) = serve_token-Cleared w g r tok (rw bearer at h) in
      let (e, same, decides) = evaluate_for-policies g.policies c.issuer in
      let (allows, clear) =
        (evaluate-allowed_iff e (request_of w r c)).0
          (sym (ap (λ d. d.allowed) (decides (request_of w r c))) ∙ cleared.policy) in
      (
        c,
        record {
          who = identify-Identified g tok c who;
          cleared = cleared;
          permitted = rw same at allows;
          unforbidden = rw same at clear;
        },
      )
