-- ===== src/Pkce/Origin.antt =====
-- internal/pkce/handler.go: where the codes that can be exchanged come from.
use oauth4os.Common.{
  ℕ, String, ◌≡◌, ◌≢◌, ◌⊎◌, inl, inr, false, ◌||◌, some, List, [], ◌∷◌, ◌==◌, eq_iff, eq_complete,
  Bool-cases, Option-cases, eq_of_some-eq, arith,
}
use mathlib.Core.Path.{subst}
use oauth4os.Common.Dict
use oauth4os.Common.Dict.{Dict, get-empty, get-put, get-remove, get-sweep}
use oauth4os.Pkce.Flow.{
  AuthCode, PendingConsent, Handler, Callbacks, AuthorizeQuery, ExchangeForm, tokens, uri_refused,
  method_or_default, consent_of, code_of, without_code, without_consent, new_handler, authorize,
  consent, exchange, old_code, cleanup,
}
use oauth4os.Pkce.Codes.{exchange_iff}

-- A pair of client and redirect URI that the authorize endpoint lets through.
abbrev pub Registered : Callbacks → String → String → Type 0
Registered cb client_id uri = (client_id ≢ "") × (uri ≢ "") × (uri_refused cb client_id uri ≡ false)

pub record Inv (cb : Callbacks) (h : Handler) : Type 0 where
  pub asked :
      (k : String) (pc : PendingConsent)
      → Dict.get h.pending k ≡ some pc
      → Registered cb pc.client_id pc.redirect_uri × (pc.code_challenge_method ≡ "S256")
  pub approved :
      (k : String) (ac : AuthCode)
      → Dict.get h.codes k ≡ some ac
      → Registered cb ac.client_id ac.redirect_uri × (ac.code_challenge_method ≡ "S256")

-- The requests that change the handler, with what each draws.
pub data Call : Type 0 where
  authorizes : AuthorizeQuery → String → ℕ → Call
  consents : String → String → String → ℕ → Call
  exchanges : ExchangeForm → ℕ → Call
  cleans : ℕ → Call

unfoldable pub step : (String → String) → Callbacks → Handler → Call → Handler
step s256 cb h (authorizes q id now) = (authorize cb h q id now).0
step s256 cb h (consents id action code now) = (consent h id action code now).0
step s256 cb h (exchanges f now) = (exchange s256 cb h f now).0
step s256 cb h (cleans now) = cleanup h now

unfoldable pub run : (String → String) → Callbacks → Handler → List Call → Handler
run s256 cb h [] = h
run s256 cb h (c ∷ cs) = run s256 cb (step s256 cb h c) cs

new_handler-Inv : (cb : Callbacks) → Inv cb new_handler
unfolding new_handler
new_handler-Inv cb = record {
  asked = λ k pc e. absurd (cc (get-empty {V = PendingConsent} k));
  approved = λ k ac e. absurd (cc (get-empty {V = AuthCode} k));
}

abbrev AskedWell : Callbacks → PendingConsent → Type 0
AskedWell cb pc = Registered cb pc.client_id pc.redirect_uri × (pc.code_challenge_method ≡ "S256")

-- An entry of a map after a put is the new one or an old one.
put_cases :
    {V : Type 0} (P : V → Type 0) (d : Dict V) (k j : String) (v w : V)
    → Dict.get (Dict.put d k v) j ≡ some w
    → P v
    → (Dict.get d j ≡ some w → P w)
    → P w
put_cases P d k j v w e new old = elim (Bool-cases (k == j)) [
  | inl hit ↦ subst P (eq_of_some-eq v w (ground (arith, get-put d k j v))) new
  | inr miss ↦ old (ground (arith, get-put d k j v))
]

authorize-pending :
    (cb : Callbacks) (h : Handler) (q : AuthorizeQuery) (id : String) (now : ℕ)
    → ((authorize cb h q id now).0 ≡ h)
      ⊎ (((authorize cb h q id now).0
            ≡ record h { pending = Dict.put h.pending id (consent_of q id now) })
          × AskedWell cb (consent_of q id now))
unfolding authorize
authorize-pending cb h q id now = elim (Bool-cases (q.client_id == "" || q.redirect_uri == "")) [
  | inl bad ↦ inl (rw (bad, authorize))
  | inr given ↦ elim (Bool-cases (uri_refused cb q.client_id q.redirect_uri)) [
    | inl bad ↦ inl (rw (given, authorize) (rw bad))
    | inr good ↦ elim (Bool-cases (method_or_default q.code_challenge_method == "S256")) [
      | inr bad ↦ inl (rw (given, authorize) (rw good (rw bad)))
      | inl s256 ↦ inr (
        rw (given, authorize) (rw good (rw s256)),
        (
          (
            (λ x. ground (arith, eq_complete _ _ x)),
            (λ x. ground (arith, eq_complete _ _ x)),
            good,
          ),
          (eq_iff _ _).0 s256,
        ),
      )
    ]
  ]
]

authorize-Inv :
    (cb : Callbacks) (h : Handler) (q : AuthorizeQuery) (id : String) (now : ℕ)
    → Inv cb h
    → Inv cb (authorize cb h q id now).0
authorize-Inv cb h q id now v = elim (authorize-pending cb h q id now) [
  | inl same ↦ rw same v
  | inr (new, well) ↦ rw new (record {
    asked = λ k pc e.
        put_cases (AskedWell cb) h.pending id k (consent_of q id now) pc e well (v.asked k pc);
    approved = v.approved;
  })
]

abbrev ApprovedWell : Callbacks → AuthCode → Type 0
ApprovedWell cb ac =
    Registered cb ac.client_id ac.redirect_uri × (ac.code_challenge_method ≡ "S256")

take_consent-Inv :
    (cb : Callbacks) (h : Handler) (id : String) → Inv cb h → Inv cb (without_consent h id)
take_consent-Inv cb h id v = record {
  asked = λ k pc e. v.asked k pc (ground (arith, get-remove h.pending id k));
  approved = v.approved;
}

approve-Inv :
    (cb : Callbacks) (h : Handler) (code : String) (now : ℕ) (pc : PendingConsent)
    → AskedWell cb pc
    → Inv cb h
    → Inv cb (record h { codes = Dict.put h.codes code (code_of pc code now) })
approve-Inv cb h code now pc well v = record {
  asked = v.asked;
  approved = λ k ac e.
      put_cases (ApprovedWell cb) h.codes code k (code_of pc code now) ac e well (v.approved k ac);
}

consent-Inv :
    (cb : Callbacks) (h : Handler) (id action code : String) (now : ℕ)
    → Inv cb h
    → Inv cb (consent h id action code now).0
unfolding consent
consent-Inv cb h id action code now v = elim (Option-cases (Dict.get h.pending id)) [
  | inl lost ↦ rw (lost, consent) v
  | inr (pc, there) ↦
      let taken = take_consent-Inv cb h id v in
      let made = approve-Inv cb (without_consent h id) code now pc (v.asked id pc there) taken in
      rw (there, consent) (ground (arith, taken, made))
]

exchange-Inv :
    (s256 : String → String) (cb : Callbacks) (h : Handler) (f : ExchangeForm) (now : ℕ)
    → Inv cb h
    → Inv cb (exchange s256 cb h f now).0
unfolding exchange
exchange-Inv s256 cb h f now v =
    let taken : Inv cb (without_code h f.code) = record {
      asked = v.asked;
      approved = λ k ac e. v.approved k ac (ground (arith, get-remove h.codes f.code k));
    } in
    ground (arith, v, taken)

cleanup-Inv : (cb : Callbacks) (h : Handler) (now : ℕ) → Inv cb h → Inv cb (cleanup h now)
unfolding cleanup
cleanup-Inv cb h now v = record {
  asked = v.asked;
  approved = λ k ac e. v.approved k ac (ground (arith, get-sweep h.codes k (old_code now)));
}

step-Inv :
    (s256 : String → String) (cb : Callbacks) (h : Handler) (c : Call)
    → Inv cb h
    → Inv cb (step s256 cb h c)
unfolding step
step-Inv s256 cb h (authorizes q id now) v = authorize-Inv cb h q id now v
step-Inv s256 cb h (consents id action code now) v = consent-Inv cb h id action code now v
step-Inv s256 cb h (exchanges f now) v = exchange-Inv s256 cb h f now v
step-Inv s256 cb h (cleans now) v = cleanup-Inv cb h now v

run-Inv :
    (s256 : String → String) (cb : Callbacks) (h : Handler) (cs : List Call)
    → Inv cb h
    → Inv cb (run s256 cb h cs)
unfolding run
run-Inv s256 cb h [] v = v
run-Inv s256 cb h (c ∷ cs) v = run-Inv s256 cb (step s256 cb h c) cs (step-Inv s256 cb h c v)

-- After any requests, tokens are issued only for the code that is stored under the name in the request:
-- the redirect check let its client and redirect URI through, if there is one; its challenge was asked
-- for with the method S256; and the request names that same redirect URI. The tokens are what the
-- issuer gives for its client and scopes.
pub exchange-Registered :
    (s256 : String → String) (cb : Callbacks) (cs : List Call) (f : ExchangeForm) (now : ℕ)
    (a r : String)
    → (exchange s256 cb (run s256 cb new_handler cs) f now).1 ≡ tokens a r
    → (ac : AuthCode) × (Dict.get (run s256 cb new_handler cs).codes f.code ≡ some ac)
      × (cb.issuer ac.client_id ac.scopes ≡ (a, r))
      × Registered cb ac.client_id f.redirect_uri
      × (ac.code_challenge_method ≡ "S256")
exchange-Registered s256 cb cs f now a r e =
    let h = run s256 cb new_handler cs in
    let (given, ac, there, passes, issued) = (exchange_iff s256 cb h f now a r).0 e in
    let (reg, method) =
      (run-Inv s256 cb new_handler cs (new_handler-Inv cb)).approved f.code ac there in
    (ac, there, issued, subst (Registered cb ac.client_id) passes.same_uri reg, method)
