-- ===== src/Introspect/Stale.antt =====
-- internal/introspect/handler.go: how old an answer of the cache can be, and when a token is active.
use oauth4os.Common.{
  ℕ, ◌-◌, ◌≤◌, ◌<◌, String, ◌≡◌, ◌↔◌, refl, sym, ap, ◌∙◌, inl, inr, true, false, some, List, [],
  ◌∷◌, ◌==◌, eq_iff, Bool-cases, Option-cases, eq_of_some-eq, ltb, arith,
}
use mathlib.Core.Path.{subst}
use oauth4os.Common.Dict
use oauth4os.Common.Dict.{Dict, get-put, get-empty}
use oauth4os.Token.State.{Token, Manager}
use oauth4os.Token.Maintain.{lookup}
use oauth4os.Introspect.Handler.{
  Response, CacheEntry, CachedLookup, new_cached_lookup, cached_introspect, introspect,
}

-- Lookups one after another, the last one first, each with its time.
abbrev pub after : (String → ℕ → Response) → ℕ → List (String × ℕ) → CachedLookup
after inner ttl [] = new_cached_lookup ttl
after inner ttl ((token, now) ∷ rest) = (cached_introspect inner (after inner ttl rest) token now).0

module _ (inner : String → ℕ → Response) where
  -- Every entry is what the inner lookup answered at its time.
  abbrev Honest : CachedLookup → Type 0
  Honest c =
      (token : String) (e : CacheEntry)
      → Dict.get c.cache token ≡ some e
      → e.resp ≡ inner token e.at_time

  put-Honest :
      (c : CachedLookup) (token : String) (now : ℕ)
      → Honest c
      → Honest (record c {
        cache = Dict.put c.cache token (record { resp = inner token now; at_time = now });
      })
  put-Honest c token now h other e there = elim (Bool-cases (token == other)) [
    | inl hit ↦
        let new : CacheEntry = record { resp = inner token now; at_time = now } in
        let same : new ≡ e =
          eq_of_some-eq new e (sym (get-put c.cache token other new ∙ rw hit refl) ∙ there) in
        subst (λ x. x.resp ≡ inner other x.at_time) same
          (ap (λ t. inner t now) ((eq_iff token other).0 hit))
    | inr miss ↦ h other e (
        ground (
          arith,
          there,
          miss,
          get-put c.cache token other (record { resp = inner token now; at_time = now }),
        ))
  ]

  step-Honest :
      (c : CachedLookup) (token : String) (now : ℕ)
      → Honest c
      → Honest (cached_introspect inner c token now).0
  unfolding cached_introspect
  step-Honest c token now h = elim (Option-cases (Dict.get c.cache token)) [
    | inl lost ↦ rw (lost, cached_introspect) (put-Honest c token now h)
    | inr (e, there) ↦ elim (Bool-cases (ltb (now - e.at_time) c.ttl)) [
      | inl young ↦ rw (there, cached_introspect) (rw young h)
      | inr old ↦ rw (there, cached_introspect) (rw old (put-Honest c token now h))
    ]
  ]

  step-ttl :
      (c : CachedLookup) (token : String) (now : ℕ)
      → (cached_introspect inner c token now).0.ttl ≡ c.ttl
  unfolding cached_introspect
  step-ttl c token now = elim (Option-cases (Dict.get c.cache token)) [
    | inl lost ↦ rw (lost, cached_introspect) refl
    | inr (e, there) ↦ elim (Bool-cases (ltb (now - e.at_time) c.ttl)) [
      | inl young ↦ rw (there, cached_introspect) (rw young refl)
      | inr old ↦ rw (there, cached_introspect) (rw old refl)
    ]
  ]

  after-Honest : (ttl : ℕ) (calls : List (String × ℕ)) → Honest (after inner ttl calls)
  unfolding new_cached_lookup
  after-Honest ttl [] = λ token e there. absurd (cc (there, get-empty {V = CacheEntry} token))
  after-Honest ttl ((token, now) ∷ rest) =
      step-Honest (after inner ttl rest) token now (after-Honest ttl rest)

  after-ttl : (ttl : ℕ) (calls : List (String × ℕ)) → 0 < ttl → (after inner ttl calls).ttl ≡ ttl
  unfolding new_cached_lookup
  after-ttl ttl [] h = ground (arith, h)
  after-ttl ttl ((token, now) ∷ rest) h =
      step-ttl (after inner ttl rest) token now ∙ after-ttl ttl rest h

  -- Every answer of the cache is what the inner lookup answered for that token at a time that is less
  -- than the cache's time ago, so a revocation is seen after that time at the latest.
  pub cached_introspect-recent :
      (ttl : ℕ) (calls : List (String × ℕ)) (token : String) (now : ℕ)
      → 0 < ttl
      → (t : ℕ) × (now - t < ttl)
        × ((cached_introspect inner (after inner ttl calls) token now).1 ≡ inner token t)
  unfolding cached_introspect
  cached_introspect-recent ttl calls token now h =
      let c = after inner ttl calls in
      elim (Option-cases (Dict.get c.cache token)) [
        | inl lost ↦ (now, omega (arith, h), rw (lost, cached_introspect) refl)
        | inr (e, there) ↦ elim (Bool-cases (ltb (now - e.at_time) c.ttl)) [
          | inr old ↦ (now, omega (arith, h), rw (there, cached_introspect) (rw old refl))
          | inl young ↦ (
            e.at_time,
            ground (arith, young, after-ttl ttl calls h),
            rw (there, cached_introspect) (rw young (after-Honest ttl calls token e there)),
          )
        ]
      ]

-- The adapter reports a token as active exactly if it is stored, not revoked and not past its time (at
-- the moment of its expiry it is still active).
pub introspect-active :
    (m : Manager) (token : String) (now : ℕ)
    → ((introspect m token now).active ≡ true) ↔ (
        (tok : Token) × (lookup m token ≡ some tok)
        × (tok.revoked ≡ false)
        × (now ≤ tok.expires_at))
unfolding introspect
introspect-active m token now = (to, from)
  where
    to :
        (introspect m token now).active ≡ true
        → (tok : Token) × (lookup m token ≡ some tok)
          × (tok.revoked ≡ false)
          × (now ≤ tok.expires_at)
    to h = elim (Option-cases (lookup m token)) [
      | inl lost ↦ absurd (cc (rw (lost, introspect) at h))
      | inr (tok, there) ↦ (
        tok,
        there,
        ground (arith, rw (there, introspect) at h),
        ground (arith, rw (there, introspect) at h),
      )
    ]

    from :
        (tok : Token) × (lookup m token ≡ some tok) × (tok.revoked ≡ false) × (now ≤ tok.expires_at)
        → (introspect m token now).active ≡ true
    from (tok, there, fine, time) =
        let fresh : ltb tok.expires_at now ≡ false = ground (arith, time) in
        rw (there, introspect) (rw (fine, fresh) refl)
