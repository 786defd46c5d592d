-- ===== src/Jwt/Sound.antt =====
-- internal/jwt/validator.go: what stands behind a token that passes.
use mathlib.Core.Path.{subst}
use oauth4os.Common.{
  ℕ, String, ◌≡◌, ◌⊎◌, refl, sym, ap, ◌∙◌, inl, inr, true, false, Option, none, some, List, [], ◌∷◌,
  ◌==◌, Any, Bool-cases, Option-cases, contains, arith,
}
use oauth4os.Jwt.Keys.{Attempt, ok, failed, Provider, PublicKey, audience_match, find_provider}
use oauth4os.Jwt.Validator.{
  MapClaims, Unverified, Library, Claims, Validator, resolve_key, claims_of, wrong_audience,
  check_claims, verify_with, validate,
}
use oauth4os.Jwt.Fresh.{ok_inj, Trusted, SoundKey, same_issuer, resolve-SoundKey}

module _ (lib : Library) where
  -- The provider takes any audience, or one of those of the token is among its own.
  abbrev pub RightAudience : Provider → MapClaims → Type 0
  RightAudience p m = (p.audience ≡ []) ⊎ Any (λ a. contains p.audience a ≡ true) m.audience

  audience_match-Any :
      (ts expected : List String)
      → audience_match ts expected ≡ true
      → Any (λ a. contains expected a ≡ true) ts
  unfolding audience_match
  audience_match-Any [] expected h = absurd (ground arith)
  audience_match-Any (t ∷ ts) expected h = elim (Bool-cases (contains expected t)) [
    | inl e ↦ inl e
    | inr e ↦ inr (audience_match-Any ts expected (ground arith))
  ]

  right_audience :
      (expected ts : List String)
      → wrong_audience lib expected ts ≡ false
      → (expected ≡ []) ⊎ Any (λ a. contains expected a ≡ true) ts
  right_audience [] ts h = inl refl
  right_audience (a ∷ auds) ts h = inr (audience_match-Any ts (a ∷ auds) (ground arith))

  -- What a token that passed has behind it.
  pub record Vouched (v v' : Validator) (tok : String) (now : ℕ) (c : Claims) : Type 0 where
    pub u : Unverified
    pub p : Provider
    pub key : PublicKey
    pub m : MapClaims
    pub parsed : lib.parse_unverified tok ≡ some u
    pub configured : find_provider v.providers u.iss ≡ some p
    pub trusted : Trusted lib v' u.iss u.kid now key
    pub rsa : u.method_is_rsa ≡ true
    pub verified : lib.parse tok key ≡ some m
    pub audience : RightAudience p m
    pub claims : claims_of lib u.iss m ≡ c

  check_claims-ok :
      (issuer : String) (p : Provider) (o : Option MapClaims) (c : Claims)
      → check_claims lib issuer p o ≡ ok c
      → (m : MapClaims) × (o ≡ some m) × RightAudience p m × (claims_of lib issuer m ≡ c)
  check_claims-ok issuer p none c h = absurd (cc h)
  check_claims-ok issuer p (some m) c h =
      elim (Bool-cases (wrong_audience lib p.audience m.audience)) [
        | inl bad ↦ absurd (ground arith)
        | inr good ↦ (m, refl, right_audience p.audience m.audience good, ok_inj _ c (rw good at h))
      ]

  verify_with-Vouched :
      (v : Validator) (tok : String) (now : ℕ) (u : Unverified) (p : Provider) (c : Claims)
      (r : Validator × Attempt PublicKey)
      → lib.parse_unverified tok ≡ some u
      → find_provider v.providers u.iss ≡ some p
      → SoundKey lib u.iss u.kid now r
      → (verify_with lib tok u p r).1 ≡ ok c
      → Vouched v (verify_with lib tok u p r).0 tok now c
  verify_with-Vouched v tok now u p c (v', failed e) a b s h = absurd (cc h)
  verify_with-Vouched v tok now u p c (v', ok key) a b s h = elim (Bool-cases u.method_is_rsa) [
    | inr other ↦ absurd (cc (rw other at h))
    | inl rsa ↦
        let (m, ver, aud, cl) = check_claims-ok u.iss p (lib.parse tok key) c (rw rsa at h) in
        record {
          rsa = rsa;
          u = u;
          p = p;
          key = key;
          m = m;
          parsed = a;
          configured = b;
          trusted = s;
          verified = ver;
          audience = aud;
          claims = cl;
        }
  ]

  -- A token passes only if it names the issuer of a configured provider and a method of RSA signatures,
  -- verifies under an RSA key of that issuer that the validator holds afterwards and that was fetched
  -- less than a day ago (also where the issuer cannot be reached), and is for an audience of the
  -- provider, if that has any; the claims are those that were verified, with the name of that issuer.
  pub validate-Vouched :
      (v : Validator) (tok : String) (now : ℕ) (c : Claims)
      → (validate lib v tok now).1 ≡ ok c
      → Vouched v (validate lib v tok now).0 tok now c
  unfolding validate
  validate-Vouched v tok now c h = elim (Bool-cases (tok == "")) [
    | inl blank ↦ absurd (ground arith)
    | inr given ↦ elim (Option-cases (lib.parse_unverified tok)) [
      | inl bad ↦ absurd (ground arith)
      | inr (u, a) ↦ elim (Option-cases (find_provider v.providers u.iss)) [
        | inl stranger ↦ absurd (ground arith)
        | inr (p, b) ↦
            let r = resolve_key lib v p u.kid now in
            let same : validate lib v tok now ≡ verify_with lib tok u p r =
              rw (given, validate) (rw (a, validate) (rw (b, validate) refl)) in
            let sound : SoundKey lib u.iss u.kid now r =
              subst (λ z. SoundKey lib z u.kid now r) (same_issuer lib v.providers u.iss p b)
                (resolve-SoundKey lib v p u.kid now) in
            rw same (verify_with-Vouched v tok now u p c r a b sound (sym (ap (λ z. z.1) same) ∙ h))
      ]
    ]
  ]
