-- ===== src/Proxy/Stages.antt =====
-- cmd/proxy/main.go: what each part of the handler asks of a request that it lets through.
use Prim.Native.String.{len}
use oauth4os.Common.{
  ℕ, String, ◌≡◌, ◌≢◌, ◌⊎◌, refl, inl, inr, true, false, some, List, [], ◌∷◌, Bool-cases,
  Option-cases, ltb, arith,
}
use oauth4os.TokenBind.Binder.{bind, verify, fingerprint}
use oauth4os.Session.Manager as Session
use oauth4os.Jwt.Validator.{Claims}
use oauth4os.Cedar.Tenant.{evaluate_for}
use oauth4os.Scope.Mapper.{map_for_issuer}
use oauth4os.Proxy.Request.{Request, Answer, denied, aborted, cached, forwarded, Gateway, World}
use oauth4os.Proxy.Gateway.{
  identify, dpop_refused, ip_refused, session_key, tracked, request_of, webhook_refused, authorize,
  check_binding, track, serve_token,
}

pub List-cases : (l : List String) → (l ≡ []) ⊎ ((x : String) × (xs : List String) × (l ≡ x ∷ xs))
List-cases [] = inl refl
List-cases (x ∷ xs) = inr (x, xs, refl)

create-below :
    (m : Session.Manager) (id client token ip : String) (now : ℕ)
    → (Session.create m id client token ip now).1 ≡ true
    → Session.at_limit m client ≡ false
unfolding Session.create
create-below m id client token ip now h = ground arith

module _ {Net Ip : Type 0} (w : World Net Ip) where
  -- The answer hands the request on, or a kept response of an earlier one.
  abbrev pub Granted : Answer → Type 0
  Granted (forwarded to who) = Unit
  Granted (cached e) = Unit
  Granted (denied code text) = ⊥
  Granted aborted = ⊥

  abbrev pub fp_of : Request → String
  fp_of r = fingerprint w.sha256_hex w.net.split_host_port r.remote_addr r.user_agent

  -- What the parts after the identification ask.
  pub record Cleared (g : Gateway Net) (r : Request) (tok : String) (c : Claims) : Type 0 where
    pub dpop : dpop_refused w g r tok ≡ false
    pub ip : ip_refused w g r c ≡ false
    pub session : Session.at_limit g.sessions c.client_id ≡ false
    pub binding : verify g.binder (session_key w tok) (fp_of r) ≡ true
    pub roles : map_for_issuer g.mapper c.issuer c.scopes ≢ []
    pub policy : (evaluate_for g.policies c.issuer (request_of w r c)).allowed ≡ true
    pub webhook : webhook_refused w g r c ≡ false

  authorize-Granted :
      (g : Gateway Net) (r : Request) (c : Claims)
      → Granted (authorize w g r c).1
      → (map_for_issuer g.mapper c.issuer c.scopes ≢ [])
        × ((evaluate_for g.policies c.issuer (request_of w r c)).allowed ≡ true)
        × (webhook_refused w g r c ≡ false)
  unfolding authorize
  authorize-Granted g r c h = elim (List-cases (map_for_issuer g.mapper c.issuer c.scopes)) [
    | inl none_of ↦ absurd (rw (none_of, authorize) at h)
    | inr (role, roles, some_of) ↦
        let rest = rw (some_of, authorize) at h in
        elim (Bool-cases (evaluate_for g.policies c.issuer (request_of w r c)).allowed) [
          | inr stop ↦ absurd (rw stop at rest)
          | inl fine ↦ elim (Bool-cases (webhook_refused w g r c)) [
            | inl stop ↦ absurd (rw (fine, stop) at rest)
            | inr let_in ↦ ((λ e. cc (e, some_of)), fine, let_in)
          ]
        ]
  ]

  pub check_binding-Granted :
      (g : Gateway Net) (r : Request) (tok : String) (c : Claims)
      → Granted (check_binding w g r tok c).1
      → (verify g.binder (session_key w tok) (fp_of r) ≡ true)
        × Granted
            (authorize w (record g { binder = bind g.binder (session_key w tok) (fp_of r) }) r c).1
        × ((check_binding w g r tok c).0
            ≡ (authorize w
                (record g { binder = bind g.binder (session_key w tok) (fp_of r) })
                r
                c).0)
  unfolding check_binding
  check_binding-Granted g r tok c h =
      elim (Bool-cases (verify g.binder (session_key w tok) (fp_of r))) [
        | inl fine ↦ (fine, rw fine at h, rw fine refl)
        | inr bad ↦ absurd (rw bad at h)
      ]

  pub track-Granted :
      (g : Gateway Net) (r : Request) (tok : String) (c : Claims)
      → Granted (track w g r tok c).1
      → (Session.at_limit g.sessions c.client_id ≡ false)
        × (sessions : Session.Manager) × Granted
            (check_binding w (tracked w g sessions tok) r tok c).1
        × ((track w g r tok c).0 ≡ (check_binding w (tracked w g sessions tok) r tok c).0)
  unfolding track
  track-Granted g r tok c h =
      let key = session_key w tok in
      let made = Session.create g.sessions key c.client_id key r.remote_addr w.now in
      elim (Bool-cases (ltb (len tok) 16)) [
        | inl short ↦ absurd (rw (short, track) at h)
        | inr long ↦ elim (Bool-cases made.1) [
          | inr full ↦ absurd (rw (full, track) at (rw (long, track) at h))
          | inl fine ↦ (
            create-below g.sessions key c.client_id key r.remote_addr w.now fine,
            made.0,
            rw (fine, track) at (rw (long, track) at h),
            rw (long, track) (rw (fine, track) refl),
          )
        ]
      ]

  pub serve_token-Granted :
      (g : Gateway Net) (r : Request) (tok : String)
      → Granted (serve_token w g r tok).1
      → (c : Claims) × ((identify w g tok).1 ≡ some c)
        × (dpop_refused w (identify w g tok).0 r tok ≡ false)
        × (ip_refused w (identify w g tok).0 r c ≡ false)
        × Granted (track w (identify w g tok).0 r tok c).1
        × ((serve_token w g r tok).0 ≡ (track w (identify w g tok).0 r tok c).0)
  unfolding serve_token
  serve_token-Granted g r tok h = elim (Option-cases (identify w g tok).1) [
    | inl nobody ↦ absurd (rw (nobody, serve_token) at h)
    | inr (c, who) ↦
        let g' = (identify w g tok).0 in
        let rest = rw (who, serve_token) at h in
        elim (Bool-cases (dpop_refused w g' r tok)) [
          | inl stop ↦ absurd (rw stop at rest)
          | inr fine ↦ elim (Bool-cases (ip_refused w g' r c)) [
            | inl stop ↦ absurd (rw (fine, stop) at rest)
            | inr near ↦ (
              c,
              who,
              fine,
              near,
              rw (fine, near) at rest,
              rw (who, serve_token) (rw (fine, near) refl),
            )
          ]
        ]
  ]

  -- A request with a bearer token that is let through went through every part.
  pub serve_token-Cleared :
      (g : Gateway Net) (r : Request) (tok : String)
      → Granted (serve_token w g r tok).1
      → (c : Claims) × ((identify w g tok).1 ≡ some c) × Cleared g r tok c
  unfolding identify dpop_refused ip_refused webhook_refused
  serve_token-Cleared g r tok h =
      let (c, who, proof, near, tracks, _) = serve_token-Granted g r tok h in
      let (below, sessions, binds, _) = track-Granted (identify w g tok).0 r tok c tracks in
      let (bound, rest, _) =
        check_binding-Granted (tracked w (identify w g tok).0 sessions tok) r tok c binds in
      let (roles, policy, webhook) = authorize-Granted _ r c rest in
      (
        c,
        who,
        record {
          dpop = proof;
          ip = near;
          session = below;
          binding = bound;
          roles = roles;
          policy = policy;
          webhook = webhook;
        },
      )
