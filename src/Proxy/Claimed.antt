-- ===== src/Proxy/Claimed.antt =====
-- cmd/proxy/main.go: what a caller achieves that writes the headers X-Proxy-... itself.
use Prim.Native.String.{len}
use oauth4os.Common.{String, ◌≡◌, refl, inl, inr, List, ◌∷◌, ◌==◌, Bool-cases, Option-cases, ltb}
use oauth4os.Common.Text.{has_prefix}
use oauth4os.Common.Text.Cut.{trim_prefix}
use oauth4os.TokenBind.Binder.{verify}
use oauth4os.Session.Manager as Session
use oauth4os.Circuit.Breaker as Circuit
use oauth4os.Jwt.Validator.{Claims}
use oauth4os.Cedar.Tenant.{evaluate_for}
use oauth4os.Scope.Mapper.{map_for_issuer}
use oauth4os.Proxy.Request.{
  Identity, Request, Answer, denied, aborted, cached, forwarded, Gateway, World,
}
use oauth4os.Proxy.Gateway.{
  serve_key, entry_for, serve_open, identify, dpop_refused, ip_refused, session_key, request_of,
  webhook_refused, target_of, cached_response, deliver, authorize, check_binding, track,
  serve_token, serve,
}
use oauth4os.Proxy.Stages.{fp_of, List-cases}

-- The request with other headers X-Proxy-....
abbrev pub claiming : Request → Identity → Request
claiming r i = record r { claimed = i }

-- The answer, without X-Proxy-Scopes and X-Proxy-Key-ID where it is forwarded.
abbrev pub named : Answer → Answer
named (forwarded to who) = forwarded to (record who { scopes = ""; key_id = "" })
named (denied code text) = denied code text
named (cached e) = cached e
named aborted = aborted

module _ {Net Ip : Type 0} (w : World Net Ip) where
  deliver-unclaimed :
      (g : Gateway Net) (r : Request) (i : Identity) (c : Claims) (roles : List String)
      → named (deliver w g (claiming r i) c roles).1 ≡ named (deliver w g r c roles).1
  unfolding deliver target_of
  deliver-unclaimed g r i c roles = elim (Option-cases (cached_response w g r c)) [
    | inr (e, kept) ↦ rw (kept, named, deliver) refl
    | inl none_kept ↦ elim (Bool-cases (Circuit.allow g.breaker w.now).1) [
      | inl fine ↦ rw (none_kept, named, deliver) (rw fine refl)
      | inr stop ↦ rw (none_kept, named, deliver) (rw stop refl)
    ]
  ]

  authorize-unclaimed :
      (g : Gateway Net) (r : Request) (i : Identity) (c : Claims)
      → named (authorize w g (claiming r i) c).1 ≡ named (authorize w g r c).1
  unfolding authorize webhook_refused
  authorize-unclaimed g r i c = elim (List-cases (map_for_issuer g.mapper c.issuer c.scopes)) [
    | inl none_of ↦ rw (none_of, named, authorize) refl
    | inr (role, roles, some_of) ↦
        elim (Bool-cases (evaluate_for g.policies c.issuer (request_of w r c)).allowed) [
          | inr stop ↦ rw (some_of, named, authorize) (rw stop refl)
          | inl fine ↦ elim (Bool-cases (webhook_refused w g r c)) [
            | inl stop ↦ rw (some_of, named, authorize) (rw (fine, stop) refl)
            | inr let_in ↦
                rw (some_of, named, authorize)
                  (rw (fine, let_in) (deliver-unclaimed g r i c (role ∷ roles)))
          ]
        ]
  ]

  check_binding-unclaimed :
      (g : Gateway Net) (r : Request) (i : Identity) (tok : String) (c : Claims)
      → named (check_binding w g (claiming r i) tok c).1 ≡ named (check_binding w g r tok c).1
  unfolding check_binding
  check_binding-unclaimed g r i tok c =
      elim (Bool-cases (verify g.binder (session_key w tok) (fp_of w r))) [
        | inr bad ↦ rw bad refl
        | inl fine ↦ rw fine (authorize-unclaimed _ r i c)
      ]

  track-unclaimed :
      (g : Gateway Net) (r : Request) (i : Identity) (tok : String) (c : Claims)
      → named (track w g (claiming r i) tok c).1 ≡ named (track w g r tok c).1
  unfolding track
  track-unclaimed g r i tok c =
      let key = session_key w tok in
      elim (Bool-cases (ltb (len tok) 16)) [
        | inl short ↦ rw short refl
        | inr long ↦
            elim (Bool-cases
              (Session.create g.sessions key c.client_id key r.remote_addr w.now).1) [
                | inr full ↦ rw long (rw full refl)
                | inl fine ↦ rw long (rw fine (check_binding-unclaimed _ r i tok c))
              ]
      ]

  serve_token-unclaimed :
      (g : Gateway Net) (r : Request) (i : Identity) (tok : String)
      → named (serve_token w g (claiming r i) tok).1 ≡ named (serve_token w g r tok).1
  unfolding serve_token dpop_refused ip_refused
  serve_token-unclaimed g r i tok = elim (Option-cases (identify w g tok).1) [
    | inl nobody ↦ rw (nobody, named, serve_token) refl
    | inr (c, who) ↦
        let g' = (identify w g tok).0 in
        elim (Bool-cases (dpop_refused w g' r tok)) [
          | inl stop ↦ rw (who, named, serve_token) (rw stop refl)
          | inr fine ↦ elim (Bool-cases (ip_refused w g' r c)) [
            | inl stop ↦ rw (who, named, serve_token) (rw (fine, stop) refl)
            | inr near ↦
                rw (who, named, serve_token) (rw (fine, near) (track-unclaimed g' r i tok c))
          ]
        ]
  ]

  serve_open-unclaimed :
      (g : Gateway Net) (r : Request) (i : Identity)
      → named (serve_open w g (claiming r i)).1 ≡ named (serve_open w g r).1
  unfolding serve_open serve_key
  serve_open-unclaimed g r i = elim (Bool-cases (r.api_key == "")) [
    | inr key ↦ rw key refl
    | inl bare ↦ elim (Option-cases (entry_for w g r)) [
      | inl nobody ↦ rw bare (rw nobody refl)
      | inr (e, known) ↦ rw bare (rw known refl)
    ]
  ]

  -- Whatever a caller writes into the headers X-Proxy-User, X-Proxy-Roles, X-Proxy-Scopes and
  -- X-Proxy-Key-ID, the handler answers the same, and forwards to the same upstream with the same user
  -- and the same roles.
  pub serve-unclaimed :
      (g : Gateway Net) (r : Request) (i : Identity)
      → named (serve w g (claiming r i)).1 ≡ named (serve w g r).1
  unfolding serve
  serve-unclaimed g r i = elim (Bool-cases (has_prefix r.authorization "Bearer ")) [
    | inr open_ ↦ rw open_ (serve_open-unclaimed g r i)
    | inl bearer ↦ rw bearer (serve_token-unclaimed g r i (trim_prefix r.authorization "Bearer "))
  ]
