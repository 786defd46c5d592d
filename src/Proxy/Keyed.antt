-- ===== src/Proxy/Keyed.antt =====
-- cmd/proxy/main.go: requests without a bearer token, and which parts see them.
use oauth4os.Common.{◌≡◌, refl, inl, inr, false, Option, ◌==◌, Bool-cases, Option-cases}
use oauth4os.Common.Text.{has_prefix}
use oauth4os.ApiKey.Store as ApiKey
use oauth4os.ApiKey.Store.{Store}
use oauth4os.Proxy.Request.{Request, Gateway, World}
use oauth4os.Proxy.Gateway.{serve_key, serve_open, entry_for, serve}
use oauth4os.Session.Manager as Session
use oauth4os.Cedar.Tenant.{TenantEngine}
use oauth4os.IpFilter.Filter.{Rules}
use oauth4os.Webhook.Authorizer.{Authorizer}
use oauth4os.TokenBind.Binder.{Binder}
use oauth4os.Circuit.Breaker.{Breaker}

-- A gateway with other policies, address rules, webhook, sessions, bindings and breaker.
abbrev pub with_other :
    {Net : Type 0}
    → Gateway Net
    → TenantEngine
    → Option (Rules Net)
    → Option Authorizer
    → Session.Manager
    → Binder
    → Breaker
    → Gateway Net
with_other g policies ip_rules webhook sessions binder breaker = record g {
  policies = policies;
  ip_rules = ip_rules;
  webhook = webhook;
  sessions = sessions;
  binder = binder;
  breaker = breaker;
}

module _ {Net Ip : Type 0} (w : World Net Ip) where
  serve_key-unseen :
      (g : Gateway Net) (r : Request) (policies : TenantEngine) (ip_rules : Option (Rules Net))
      (webhook : Option Authorizer) (sessions : Session.Manager) (binder : Binder)
      (breaker : Breaker)
      → (serve_key w (with_other g policies ip_rules webhook sessions binder breaker) r).1
        ≡ (serve_key w g r).1
  unfolding serve_key
  serve_key-unseen g r policies ip_rules webhook sessions binder breaker =
      elim (Option-cases (ApiKey.validate g.keys r.api_key w.now).1) [
        | inl unknown ↦ rw (unknown, serve_key) refl
        | inr (c, known) ↦ rw (known, serve_key) refl
      ]

  -- A request without a bearer token, so also one with an API key, gets the same answer whatever the
  -- policies, the address rules, the webhook, the sessions, the bindings and the breaker are: none of
  -- them is asked.
  pub serve-unseen :
      (g : Gateway Net) (r : Request) (policies : TenantEngine) (ip_rules : Option (Rules Net))
      (webhook : Option Authorizer) (sessions : Session.Manager) (binder : Binder)
      (breaker : Breaker)
      → has_prefix r.authorization "Bearer " ≡ false
      → (serve w (with_other g policies ip_rules webhook sessions binder breaker) r).1
        ≡ (serve w g r).1
  unfolding serve serve_open
  serve-unseen g r policies ip_rules webhook sessions binder breaker open_ =
      elim (Bool-cases (r.api_key == "")) [
        | inr key ↦
            rw (open_, serve)
              (rw (key, serve_open)
                (serve_key-unseen g r policies ip_rules webhook sessions binder breaker))
        | inl bare ↦ elim (Option-cases (entry_for w g r)) [
          | inl nobody ↦ rw (open_, serve) (rw (bare, serve_open) (rw nobody refl))
          | inr (e, known) ↦ rw (open_, serve) (rw (bare, serve_open) (rw known refl))
        ]
      ]
