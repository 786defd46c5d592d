-- ===== src/Exchange/Granting.antt =====
-- internal/exchange/handler.go: what an exchange that succeeds has behind it, and what it gives.
use Prim.Native.String.{◌++◌}
use oauth4os.Common.{
  String, ◌≡◌, refl, sym, ap, ◌∙◌, inl, inr, false, Option, some, List, ◌==◌, eq_refl, Bool-cases,
  Option-cases, eq_of_some-eq,
}
use oauth4os.Common.Dict
use oauth4os.Common.Dict.{get-put}
use oauth4os.Token.State.{Token, Manager, Draw}
use oauth4os.Token.Grant.{create_token_for_client, store_token}
use oauth4os.Jwt.Validator as Jwt
use oauth4os.Jwt.Sound.{Vouched, validate-Vouched}
use oauth4os.Jwt.Fresh.{Attempt-cases}
use oauth4os.Exchange.Handler.{
  Form, SubjectClaims, Parts, Granted, granted, default_type, unsupported, scopes_for,
  validate_subject, actor, issue_exchange_token, issue, serve,
}

module _ (lib : Jwt.Library) (d : Draw) where
  granted_inj : (a b : Granted) → granted a ≡ granted b → a ≡ b
  granted_inj a b p = cc

  -- The token that is stored for the client and the scopes under its name.
  created-stored :
      (m : Manager) (client_id : String) (scopes : List String)
      → let (m', tok, refresh) = create_token_for_client m d client_id scopes in
        (Dict.get m'.tokens tok.id ≡ some tok)
        × (tok.client_id ≡ client_id)
        × (tok.scopes ≡ scopes)
        × (tok.revoked ≡ false)
  unfolding create_token_for_client store_token
  created-stored m client_id scopes = (rw get-put (rw (eq_refl _) refl), refl, refl, refl)

  -- The token for the subject and the scopes, as the manager has it.
  abbrev pub Stored : Parts → Granted → SubjectClaims → List String → Type 0
  Stored p g c scopes =
      (tok : Token) × (Dict.get p.manager.tokens g.access_token ≡ some tok)
      × (tok.client_id ≡ c.subject ++ ("@" ++ c.issuer))
      × (tok.scopes ≡ scopes)
      × (tok.revoked ≡ false)

  issued :
      (p : Parts) (c : SubjectClaims) (requested : String) (act : Option String) (g : Granted)
      → (issue lib d p c requested act).1 ≡ granted g
      → Stored (issue lib d p c requested act).0 g c (scopes_for requested c)
  unfolding issue_exchange_token
  issued p c requested act g h =
      let client = c.subject ++ ("@" ++ c.issuer) in
      let made = create_token_for_client p.manager d client (scopes_for requested c) in
      let (stored, of_client, with_scopes, live) =
        created-stored p.manager client (scopes_for requested c) in
      (
        made.1,
        ap (Dict.get made.0.tokens) (sym (ap (λ x. x.access_token) (granted_inj _ g h))) ∙ stored,
        of_client,
        with_scopes,
        live,
      )

  validate_subject-Vouched :
      (p : Parts) (token : String) (c : SubjectClaims)
      → (validate_subject lib d p token).1 ≡ some c
      → (j : Jwt.Claims) × Vouched lib p.validator
          (Jwt.validate lib p.validator token d.now).0
          token
          d.now
          j
        × (record { subject = j.client_id; issuer = j.issuer; scopes = j.scopes } ≡ c)
  unfolding validate_subject
  validate_subject-Vouched p token c h =
      elim (Attempt-cases (Jwt.validate lib p.validator token d.now).1) [
        | inr (e, bad) ↦ absurd (cc (rw (bad, validate_subject) at h))
        | inl (j, good) ↦ (
          j,
          validate-Vouched lib p.validator token d.now j good,
          eq_of_some-eq _ c (rw (good, validate_subject) at h),
        )
      ]

  -- An exchange succeeds only for a subject token that is good for its provider. It gives a new token
  -- of the proxy, under the name subject@issuer, with all the scopes that the request names, also such
  -- as the subject token does not have; where the request names none, with those of the subject token.
  pub serve-Stored :
      (p : Parts) (f : Form) (g : Granted)
      → (serve lib d p f).1 ≡ granted g
      → (j : Jwt.Claims) × (c : SubjectClaims) × Vouched lib p.validator
          (Jwt.validate lib p.validator f.subject_token d.now).0
          f.subject_token
          d.now
          j
        × (record { subject = j.client_id; issuer = j.issuer; scopes = j.scopes } ≡ c)
        × Stored (serve lib d p f).0 g c (scopes_for f.scope c)
  unfolding serve
  serve-Stored p f g h = elim (Bool-cases (f.subject_token == "")) [
    | inl blank ↦ absurd (cc (rw (blank, serve) at h))
    | inr given ↦ elim (Bool-cases (unsupported (default_type f.subject_token_type))) [
      | inl other ↦ absurd (cc (rw other at (rw (given, serve) at h)))
      | inr fine ↦ elim (Option-cases (validate_subject lib d p f.subject_token).1) [
        | inl bad ↦ absurd (cc (rw bad at (rw fine at (rw (given, serve) at h))))
        | inr (c, good) ↦
            let p' = (validate_subject lib d p f.subject_token).0 in
            let (j, vouched, is) = validate_subject-Vouched p f.subject_token c good in
            let rest = rw good at (rw fine at (rw (given, serve) at h)) in
            elim (Option-cases (actor lib d p' f.actor_token).1) [
              | inl stranger ↦ absurd (cc (rw stranger at rest))
              | inr (act, known) ↦ (
                j,
                c,
                vouched,
                is,
                rw (given, serve)
                    (rw fine (
                      rw good (
                        rw known (
                          issued (actor lib d p' f.actor_token).0 c f.scope act g
                            (rw known at rest))))),
              )
            ]
      ]
    ]
  ]
