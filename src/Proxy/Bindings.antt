-- ===== src/Proxy/Bindings.antt =====
-- cmd/proxy/main.go: how the bindings of tokens to clients act over a sequence of requests.
use Prim.Native.String.{len}
use oauth4os.Common.{
  String, ◌≡◌, refl, sym, ap, ◌∙◌, inl, inr, true, Option, some, List, [], ◌∷◌, ◌==◌, Bool-cases,
  Option-cases, ltb,
}
use oauth4os.Common.Dict
use oauth4os.Common.Text.{has_prefix}
use oauth4os.Common.Text.Cut.{trim_prefix}
use oauth4os.TokenBind.Binder.{bind, verify}
use oauth4os.TokenBind.Kept.{bind-kept, bind-verified, verify-bound}
use oauth4os.Session.Manager as Session
use oauth4os.Circuit.Breaker as Circuit
use oauth4os.ApiKey.Store as ApiKey
use oauth4os.Jwt.Validator.{Claims}
use oauth4os.Cedar.Tenant.{evaluate_for}
use oauth4os.Scope.Mapper.{map_for_issuer}
use oauth4os.Proxy.Request.{Request, Gateway, World}
use oauth4os.Proxy.Gateway.{
  serve_key, serve_open, entry_for, identify, dpop_refused, ip_refused, session_key, tracked,
  request_of, webhook_refused, cached_response, deliver, authorize, check_binding, track,
  serve_token, serve,
}
use oauth4os.Proxy.Stages.{
  Granted, fp_of, List-cases, serve_token-Cleared, serve_token-Granted, track-Granted,
  check_binding-Granted,
}

module _ {Net Ip : Type 0} (w : World Net Ip) where
  -- the client that a key is bound to
  abbrev pub bound : Gateway Net → String → Option String
  bound g key = Dict.get g.binder.bindings key

  deliver-binder :
      (g : Gateway Net) (r : Request) (c : Claims) (roles : List String)
      → (deliver w g r c roles).0.binder ≡ g.binder
  unfolding deliver
  deliver-binder g r c roles = elim (Option-cases (cached_response w g r c)) [
    | inr (e, kept) ↦ rw (kept, deliver) refl
    | inl none_kept ↦ elim (Bool-cases (Circuit.allow g.breaker w.now).1) [
      | inl fine ↦ rw (none_kept, deliver) (rw fine refl)
      | inr stop ↦ rw (none_kept, deliver) (rw stop refl)
    ]
  ]

  authorize-binder :
      (g : Gateway Net) (r : Request) (c : Claims) → (authorize w g r c).0.binder ≡ g.binder
  unfolding authorize
  authorize-binder g r c = elim (List-cases (map_for_issuer g.mapper c.issuer c.scopes)) [
    | inl none_of ↦ rw (none_of, authorize) refl
    | inr (role, roles, some_of) ↦
        elim (Bool-cases (evaluate_for g.policies c.issuer (request_of w r c)).allowed) [
          | inr stop ↦ rw (some_of, authorize) (rw stop refl)
          | inl fine ↦ elim (Bool-cases (webhook_refused w g r c)) [
            | inl stop ↦ rw (some_of, authorize) (rw (fine, stop) refl)
            | inr let_in ↦
                rw (some_of, authorize) (rw (fine, let_in) (deliver-binder g r c (role ∷ roles)))
          ]
        ]
  ]

  -- Nothing that is bound is bound to another client afterwards.
  abbrev pub Kept : Gateway Net → Gateway Net → Type 0
  Kept g g' = (key f : String) → bound g key ≡ some f → bound g' key ≡ some f

  same_binder : (g g' : Gateway Net) → g'.binder ≡ g.binder → Kept g g'
  same_binder g g' e key f h = ap (λ b. Dict.get b.bindings key) e ∙ h

  check_binding-Kept :
      (g : Gateway Net) (r : Request) (tok : String) (c : Claims)
      → Kept g (check_binding w g r tok c).0
  unfolding check_binding
  check_binding-Kept g r tok c key f h =
      elim (Bool-cases (verify g.binder (session_key w tok) (fp_of w r))) [
        | inr bad ↦ rw bad h
        | inl fine ↦ rw fine (
            ap (λ b. Dict.get b.bindings key)
              (authorize-binder
                (record g { binder = bind g.binder (session_key w tok) (fp_of w r) }) r c)
            ∙ bind-kept g.binder (session_key w tok) (fp_of w r) key f h)
      ]

  track-Kept :
      (g : Gateway Net) (r : Request) (tok : String) (c : Claims) → Kept g (track w g r tok c).0
  unfolding track
  track-Kept g r tok c key f h =
      let id = session_key w tok in
      let made = Session.create g.sessions id c.client_id id r.remote_addr w.now in
      elim (Bool-cases (ltb (len tok) 16)) [
        | inl short ↦ rw (short, track) h
        | inr long ↦ elim (Bool-cases made.1) [
          | inr full ↦ rw (long, track) (rw full h)
          | inl fine ↦
              rw (long, track)
                (rw fine (check_binding-Kept (tracked w g made.0 tok) r tok c key f h))
        ]
      ]

  serve_token-Kept :
      (g : Gateway Net) (r : Request) (tok : String) → Kept g (serve_token w g r tok).0
  unfolding serve_token identify
  serve_token-Kept g r tok key f h =
      let g' = (identify w g tok).0 in
      elim (Option-cases (identify w g tok).1) [
        | inl nobody ↦ rw (nobody, serve_token) h
        | inr (c, who) ↦ elim (Bool-cases (dpop_refused w g' r tok)) [
          | inl stop ↦ rw (who, serve_token) (rw stop h)
          | inr fine ↦ elim (Bool-cases (ip_refused w g' r c)) [
            | inl stop ↦ rw (who, serve_token) (rw (fine, stop) h)
            | inr near ↦ rw (who, serve_token) (rw (fine, near) (track-Kept g' r tok c key f h))
          ]
        ]
      ]

  serve_key-binder : (g : Gateway Net) (r : Request) → (serve_key w g r).0.binder ≡ g.binder
  unfolding serve_key
  serve_key-binder g r = elim (Option-cases (ApiKey.validate g.keys r.api_key w.now).1) [
    | inl unknown ↦ rw (unknown, serve_key) refl
    | inr (c, known) ↦ rw (known, serve_key) refl
  ]

  serve_open-binder : (g : Gateway Net) (r : Request) → (serve_open w g r).0.binder ≡ g.binder
  unfolding serve_open
  serve_open-binder g r = elim (Bool-cases (r.api_key == "")) [
    | inr key ↦ rw (key, serve_open) (serve_key-binder g r)
    | inl bare ↦ elim (Option-cases (entry_for w g r)) [
      | inl nobody ↦ rw (bare, serve_open) (rw nobody refl)
      | inr (e, known) ↦ rw (bare, serve_open) (rw known refl)
    ]
  ]

  pub serve-Kept : (g : Gateway Net) (r : Request) → Kept g (serve w g r).0
  unfolding serve
  serve-Kept g r key f h = elim (Bool-cases (has_prefix r.authorization "Bearer ")) [
    | inl bearer ↦
        rw (bearer, serve) (serve_token-Kept g r (trim_prefix r.authorization "Bearer ") key f h)
    | inr open_ ↦
        rw (open_, serve) (same_binder g (serve_open w g r).0 (serve_open-binder g r) key f h)
  ]

  -- A request with a token that is let through leaves the token's key bound to its client.
  pub serve-bound :
      (g : Gateway Net) (r : Request)
      → has_prefix r.authorization "Bearer " ≡ true
      → Granted w (serve w g r).1
      → bound (serve w g r).0 (session_key w (trim_prefix r.authorization "Bearer "))
        ≡ some (fp_of w r)
  unfolding serve identify
  serve-bound g r bearer h =
      let tok = trim_prefix r.authorization "Bearer " in
      let (c, who, fine, near, tracks, out) = serve_token-Granted w g r tok (rw bearer at h) in
      let g1 = (identify w g tok).0 in
      let (below, sessions, binds, out') = track-Granted w g1 r tok c tracks in
      let g2 = tracked w g1 sessions tok in
      let (passed, rest, out'') = check_binding-Granted w g2 r tok c binds in
      rw (bearer, serve)
        (ap (λ x. bound x (session_key w tok)) (out ∙ out' ∙ out'')
          ∙ ap (λ b. Dict.get b.bindings (session_key w tok))
              (authorize-binder
                (record g2 { binder = bind g2.binder (session_key w tok) (fp_of w r) }) r c)
          ∙ bind-verified g2.binder (session_key w tok) (fp_of w r) passed)

  pub serve-verified :
      (g : Gateway Net) (r : Request) (f : String)
      → has_prefix r.authorization "Bearer " ≡ true
      → Granted w (serve w g r).1
      → bound g (session_key w (trim_prefix r.authorization "Bearer ")) ≡ some f
      → f ≡ fp_of w r
  unfolding serve
  serve-verified g r f bearer h there =
      let tok = trim_prefix r.authorization "Bearer " in
      let (c, who, cleared) = serve_token-Cleared w g r tok (rw bearer at h) in
      verify-bound g.binder (session_key w tok) (fp_of w r) f there cleared.binding

-- Requests one after another, each with what is outside at its time.
abbrev pub serve_all : {Net Ip : Type 0} → List (World Net Ip × Request) → Gateway Net → Gateway Net
serve_all [] g = g
serve_all ((w, r) ∷ rest) g = serve_all rest (serve w g r).0

serve_all-Kept :
    {Net Ip : Type 0} (rs : List (World Net Ip × Request)) (g : Gateway Net) (key f : String)
    → Dict.get g.binder.bindings key ≡ some f
    → Dict.get (serve_all rs g).binder.bindings key ≡ some f
serve_all-Kept [] g key f h = h
serve_all-Kept ((w, r) ∷ rest) g key f h =
    serve_all-Kept rest (serve w g r).0 key f (serve-Kept w g r key f h)

-- Two requests with tokens of the same first sixteen characters are both let through, at whatever
-- times and with whatever requests between them, only if they come from the same address with the same
-- user agent, as far as the fingerprint tells.
pub serve_all-one_client :
    {Net Ip : Type 0} (w w' : World Net Ip) (between : List (World Net Ip × Request))
    (g : Gateway Net) (r r' : Request)
    → has_prefix r.authorization "Bearer " ≡ true
    → has_prefix r'.authorization "Bearer " ≡ true
    → session_key w (trim_prefix r.authorization "Bearer ")
      ≡ session_key w' (trim_prefix r'.authorization "Bearer ")
    → Granted w (serve w g r).1
    → Granted w' (serve w' (serve_all between (serve w g r).0) r').1
    → fp_of w r ≡ fp_of w' r'
serve_all-one_client w w' between g r r' bearer bearer' same first second =
    serve-verified w' (serve_all between (serve w g r).0) r' (fp_of w r) bearer' second (
      ap (Dict.get (serve_all between (serve w g r).0).binder.bindings) (sym same)
      ∙ serve_all-Kept between (serve w g r).0 _ (fp_of w r) (serve-bound w g r bearer first))
