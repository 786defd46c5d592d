-- ===== src/Pkce/Codes.antt =====
-- internal/pkce/handler.go: when a code is exchanged for tokens, and that it is so at most once.
use oauth4os.Common.{
  ℕ, ◌-◌, ◌≤◌, String, ◌≡◌, ◌≢◌, ◌↔◌, ◌⊎◌, inl, inr, none, some, ◌==◌, eq_iff, eq_refl, eq_complete,
  Bool-cases, Option-cases, arith,
}
use oauth4os.Common.Dict
use oauth4os.Common.Dict.{Dict, unless, get-put, get-remove, get-sweep}
use oauth4os.Pkce.Flow.{
  AuthCode, Handler, Callbacks, ExchangeForm, Reply, tokens, invalid_grant, invalid_request,
  lifetime, check_code, exchange, consent, old_code, cleanup,
}

-- What the checks ask of a code that was found.
pub record Passes (s256 : String → String) (ac : AuthCode) (f : ExchangeForm) (now : ℕ)
    : Type 0 where
  pub young : now - ac.created_at ≤ lifetime
  pub same_uri : ac.redirect_uri ≡ f.redirect_uri
  pub proof :
      (ac.code_challenge ≡ "")
      ⊎ ((f.code_verifier ≢ "") × (s256 f.code_verifier ≡ ac.code_challenge))

check_code-Passes :
    (s256 : String → String) (ac : AuthCode) (f : ExchangeForm) (now : ℕ)
    → check_code s256 ac f now ≡ none
    → Passes s256 ac f now
unfolding check_code
check_code-Passes s256 ac f now h = record {
  young = ground arith;
  same_uri = ground (arith, eq_iff ac.redirect_uri f.redirect_uri);
  proof = elim (Bool-cases (ac.code_challenge == "")) [
    | inl e ↦ inl ((eq_iff _ _).0 e)
    | inr e ↦ inr (
      (λ v. ground (arith, eq_complete _ _ v)),
      ground (arith, eq_iff (s256 f.code_verifier) ac.code_challenge),
    )
  ];
}

Passes-check_code :
    (s256 : String → String) (ac : AuthCode) (f : ExchangeForm) (now : ℕ)
    → Passes s256 ac f now
    → check_code s256 ac f now ≡ none
unfolding check_code
Passes-check_code s256 ac f now p = ground (
  arith,
  p.proof,
  eq_iff ac.redirect_uri f.redirect_uri,
  eq_iff ac.code_challenge "",
  eq_iff f.code_verifier "",
  eq_iff (s256 f.code_verifier) ac.code_challenge,
)

refusal_gives_none :
    (s256 : String → String) (ac : AuthCode) (f : ExchangeForm) (now : ℕ) (x : Reply) (a r : String)
    → check_code s256 ac f now ≡ some x
    → x ≢ tokens a r
unfolding check_code
refusal_gives_none s256 ac f now x a r h g = ground arith

module _ (s256 : String → String) (cb : Callbacks) (h : Handler) (f : ExchangeForm) (now : ℕ) where
  pub exchange_iff :
      (a r : String)
      → ((exchange s256 cb h f now).1 ≡ tokens a r) ↔ (
          (f.code ≢ "")
          × (ac : AuthCode) × (Dict.get h.codes f.code ≡ some ac)
          × Passes s256 ac f now
          × (cb.issuer ac.client_id ac.scopes ≡ (a, r)))
  unfolding exchange
  exchange_iff a r = (forward, backward)
    where
      forward :
          (exchange s256 cb h f now).1 ≡ tokens a r
          → (f.code ≢ "")
            × (ac : AuthCode) × (Dict.get h.codes f.code ≡ some ac)
            × Passes s256 ac f now
            × (cb.issuer ac.client_id ac.scopes ≡ (a, r))
      forward e = elim (Bool-cases (f.code == "")) [
        | inl blank ↦ absurd (ground arith)
        | inr given ↦ elim (Option-cases (Dict.get h.codes f.code)) [
          | inl lost ↦ absurd (ground arith)
          | inr (ac, there) ↦ elim (Option-cases (check_code s256 ac f now)) [
            | inl fine ↦ (
              (λ b. ground (arith, eq_complete _ _ b)),
              ac,
              there,
              check_code-Passes s256 ac f now fine,
              ground arith,
            )
            | inr (x, bad) ↦ absurd (refusal_gives_none s256 ac f now x a r bad (ground arith))
          ]
        ]
      ]

      backward :
          (f.code ≢ "")
            × (ac : AuthCode) × (Dict.get h.codes f.code ≡ some ac)
            × Passes s256 ac f now
            × (cb.issuer ac.client_id ac.scopes ≡ (a, r))
          → (exchange s256 cb h f now).1 ≡ tokens a r
      backward (given, ac, there, passes, issued) =
          ground (arith, eq_iff f.code "", Passes-check_code s256 ac f now passes)

  -- A code is good for one call, whatever the call answers: the next one that names it finds none.
  pub exchange_once :
      (g : ExchangeForm) (later : ℕ)
      → f.code ≢ ""
      → g.code ≡ f.code
      → (exchange s256 cb (exchange s256 cb h f now).0 g later).1
        ≡ invalid_grant "authorization code not found or already used"
  unfolding exchange
  exchange_once g later given same = ground (
    arith,
    eq_iff f.code "",
    eq_iff g.code "",
    get-remove h.codes f.code g.code,
    eq_iff f.code g.code,
  )

-- Cleaning up takes no code that could still be exchanged: from then on a request is granted tokens
-- exactly if it would have been without the clean-up.
pub exchange-cleanup :
    (s256 : String → String) (cb : Callbacks) (h : Handler) (f : ExchangeForm) (now later : ℕ)
    (a r : String)
    → now ≤ later
    → ((exchange s256 cb (cleanup h now) f later).1 ≡ tokens a r)
      ↔ ((exchange s256 cb h f later).1 ≡ tokens a r)
exchange-cleanup s256 cb h f now later a r le = (
  (λ e.
      let (given, ac, there, passes, issued) =
        (exchange_iff s256 cb (cleanup h now) f later a r).0 e in
      (exchange_iff s256 cb h f later a r).1 (given, ac, kept_before there, passes, issued)),
  λ e.
      let (given, ac, there, passes, issued) = (exchange_iff s256 cb h f later a r).0 e in
      (exchange_iff s256 cb (cleanup h now) f later a r).1
        (given, ac, kept_after ac there passes.young, passes, issued),
)
  where
    kept_before :
        {ac : AuthCode}
        → Dict.get (cleanup h now).codes f.code ≡ some ac
        → Dict.get h.codes f.code ≡ some ac
    kept_before e = unfold cleanup in ground (arith, get-sweep h.codes f.code (old_code now))

    kept_after :
        (ac : AuthCode)
        → Dict.get h.codes f.code ≡ some ac
        → later - ac.created_at ≤ lifetime
        → Dict.get (cleanup h now).codes f.code ≡ some ac
    kept_after ac e young =
        unfold cleanup in ground (arith, get-sweep h.codes f.code (old_code now))

-- A consent is good for one answer: whoever names it again is refused, and no code is made.
pub consent_once :
    (h : Handler) (id action code action' code' : String) (now later : ℕ)
    → let after = (consent h id action code now).0 in
      consent after id action' code' later ≡ (after, invalid_request "consent expired or not found")
unfolding consent
consent_once h id action code action' code' now later =
    ground (arith, get-remove h.pending id id, eq_refl id)
