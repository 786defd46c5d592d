-- ===== src/Jwt/Fresh.antt =====
-- internal/jwt/validator.go: the age of the keys that a token is verified under.
use mathlib.Core.Path.{subst}
use oauth4os.Common.{
  ℕ, ◌-◌, ◌*◌, ◌<◌, String, ◌≡◌, ◌⊎◌, refl, ◌∙◌, inl, inr, Bool, true, false, some, List, [], ◌∷◌,
  ◌==◌, eq_iff, eq_refl, Bool-cases, Option-cases, eq_of_some-eq, arith, ltb, nat_eq,
}
use oauth4os.Common.Dict
use oauth4os.Common.Dict.{Dict, get-put}
use oauth4os.Jwt.Keys.{
  Failure, Attempt, ok, failed, Provider, JwksKey, JwksSet, PublicKey, find_key, find_provider,
  fetch_failed,
}
use oauth4os.Jwt.Validator.{
  Library, Validator, hour, resolve_jwks_uri, fallback_cache, fetch_jwks, refresh_jwks, get_jwks,
  use_keys, retry_key, first_try, resolve_key, provider_now,
}

pub Attempt-cases :
    {A : Type 0} (x : Attempt A) → ((a : A) × (x ≡ ok a)) ⊎ ((e : Failure) × (x ≡ failed e))
Attempt-cases (ok a) = inl (a, refl)
Attempt-cases (failed e) = inr (e, refl)

pub ok_inj : {A : Type 0} (a b : A) → ◌≡◌ {A = Attempt A} (ok a) (ok b) → a ≡ b
ok_inj a b h = cc

module _ (lib : Library) where
  -- The keys are those of the issuer in the cache, and less than a day old.
  abbrev pub Cached : Validator → String → ℕ → List JwksKey → Type 0
  Cached v issuer now keys =
      (s : JwksSet) × (Dict.get v.jwks_cache issuer ≡ some s)
      × (s.keys ≡ keys)
      × (now - s.fetched_at < 24 * hour)

  -- A result that, if it has keys, has those of the cache that it leaves.
  abbrev SoundKeys : String → ℕ → Validator × Attempt (List JwksKey) → Type 0
  SoundKeys issuer now (v, failed e) = Unit
  SoundKeys issuer now (v, ok keys) = Cached v issuer now keys

  fallback-SoundKeys :
      (v : Validator) (issuer : String) (now : ℕ) (e : Failure)
      → SoundKeys issuer now (v, fallback_cache lib v issuer now e)
  unfolding fallback_cache
  fallback-SoundKeys v issuer now e = elim (Option-cases (Dict.get v.jwks_cache issuer)) [
    | inl lost ↦ rw (lost, fallback_cache) tt
    | inr (s, there) ↦ elim (Bool-cases (ltb (now - s.fetched_at) (24 * hour))) [
      | inl young ↦ rw (there, fallback_cache) (rw young (s, there, refl, ground arith))
      | inr old ↦ rw (there, fallback_cache) (rw old tt)
    ]
  ]

  fetch-SoundKeys :
      (v : Validator) (issuer : String) (now : ℕ) (uri : String)
      → SoundKeys issuer now (fetch_jwks lib v issuer now uri)
  unfolding fetch_jwks
  fetch-SoundKeys v issuer now uri = elim (Option-cases (lib.get uri)) [
    | inl silent ↦ rw (silent, fetch_jwks) (fallback-SoundKeys v issuer now fetch_failed)
    | inr (resp, answered) ↦ elim (Bool-cases (nat_eq resp.status 200)) [
      | inr bad ↦ rw (answered, fetch_jwks) (rw bad (fallback-SoundKeys v issuer now fetch_failed))
      | inl good ↦ elim (Option-cases (lib.decode_jwks resp.body)) [
        | inl garbled ↦ rw (answered, fetch_jwks) (rw (good, garbled) tt)
        | inr (keys, read) ↦
            let s : JwksSet = record { keys = keys; fetched_at = now } in
            rw (answered, fetch_jwks)
              (rw (good, read)
                (
                  s,
                  get-put v.jwks_cache issuer issuer s ∙ rw (eq_refl issuer) refl,
                  refl,
                  omega arith,
                ))
      ]
    ]
  ]

  refresh-SoundKeys :
      (v : Validator) (p : Provider) (now : ℕ) → SoundKeys p.issuer now (refresh_jwks lib v p now)
  unfolding refresh_jwks
  refresh-SoundKeys v p now = elim (Attempt-cases (resolve_jwks_uri lib v p).1) [
    | inl (uri, e) ↦
        rw (e, refresh_jwks) (fetch-SoundKeys (resolve_jwks_uri lib v p).0 p.issuer now uri)
    | inr (x, e) ↦
        rw (e, refresh_jwks) (fallback-SoundKeys (resolve_jwks_uri lib v p).0 p.issuer now x)
  ]

  get-SoundKeys :
      (v : Validator) (p : Provider) (force : Bool) (now : ℕ)
      → SoundKeys p.issuer now (get_jwks lib v p force now)
  unfolding get_jwks
  get-SoundKeys v p true now = refresh-SoundKeys v p now
  get-SoundKeys v p false now = elim (Option-cases (Dict.get v.jwks_cache p.issuer)) [
    | inl lost ↦ rw (lost, get_jwks) (refresh-SoundKeys v p now)
    | inr (s, there) ↦ elim (Bool-cases (ltb (now - s.fetched_at) hour)) [
      | inl young ↦ rw (there, get_jwks) (rw young (s, there, refl, ground arith))
      | inr old ↦ rw (there, get_jwks) (rw old (refresh-SoundKeys v p now))
    ]
  ]

  -- The key is one that findKey picks for the key id from keys of the issuer that the validator holds
  -- and that are less than a day old.
  abbrev pub Trusted : Validator → String → String → ℕ → PublicKey → Type 0
  Trusted v issuer kid now key =
      (keys : List JwksKey) × Cached v issuer now keys × (find_key lib.base64 keys kid ≡ ok key)

  abbrev pub SoundKey : String → String → ℕ → Validator × Attempt PublicKey → Type 0
  SoundKey issuer kid now (v, failed e) = Unit
  SoundKey issuer kid now (v, ok key) = Trusted v issuer kid now key

  found-SoundKey :
      (v : Validator) (issuer kid : String) (now : ℕ) (keys : List JwksKey)
      → Cached v issuer now keys
      → SoundKey issuer kid now (v, find_key lib.base64 keys kid)
  found-SoundKey v issuer kid now keys c = elim (Attempt-cases (find_key lib.base64 keys kid)) [
    | inl (key, e) ↦ rw e (keys, c, e)
    | inr (x, e) ↦ rw e tt
  ]

  use-SoundKey :
      (issuer kid : String) (now : ℕ) (r : Validator × Attempt (List JwksKey))
      → SoundKeys issuer now r
      → SoundKey issuer kid now (use_keys lib r kid)
  use-SoundKey issuer kid now (v, failed e) h = tt
  use-SoundKey issuer kid now (v, ok keys) h = found-SoundKey v issuer kid now keys h

  -- The pointer keeps showing a provider of the same issuer.
  pub same_issuer :
      (ps : List Provider) (issuer : String) (p : Provider)
      → find_provider ps issuer ≡ some p
      → p.issuer ≡ issuer
  unfolding find_provider
  same_issuer [] issuer p h = absurd (cc h)
  same_issuer (q ∷ ps) issuer p h = elim (Bool-cases (q.issuer == issuer)) [
    | inl e ↦
        subst (λ z. z.issuer ≡ issuer) (eq_of_some-eq q p (ground arith))
          ((eq_iff q.issuer issuer).0 e)
    | inr e ↦ same_issuer ps issuer p (ground arith)
  ]

  provider_now-issuer : (v : Validator) (p : Provider) → (provider_now lib v p).issuer ≡ p.issuer
  provider_now-issuer v p = elim (Option-cases (find_provider v.providers p.issuer)) [
    | inl e ↦ rw e refl
    | inr (q, e) ↦ rw e (same_issuer v.providers p.issuer q e)
  ]

  retry-SoundKey :
      (p : Provider) (kid : String) (now : ℕ) (r : Validator × Attempt PublicKey)
      → SoundKey p.issuer kid now r
      → SoundKey p.issuer kid now (retry_key lib p kid now r)
  retry-SoundKey p kid now (v, ok key) h = h
  retry-SoundKey p kid now (v, failed e) h = elim (Bool-cases (kid == "")) [
    | inl blank ↦ rw blank tt
    | inr given ↦ rw given (
        use-SoundKey p.issuer kid now _
          (rw (provider_now-issuer v p) at (get-SoundKeys v (provider_now lib v p) true now)))
  ]

  first-SoundKey :
      (p : Provider) (kid : String) (now : ℕ) (r : Validator × Attempt (List JwksKey))
      → SoundKeys p.issuer now r
      → SoundKey p.issuer kid now (first_try lib p kid now r)
  first-SoundKey p kid now (v, failed e) h = tt
  first-SoundKey p kid now (v, ok keys) h =
      retry-SoundKey p kid now (v, find_key lib.base64 keys kid)
        (found-SoundKey v p.issuer kid now keys h)

  pub resolve-SoundKey :
      (v : Validator) (p : Provider) (kid : String) (now : ℕ)
      → SoundKey p.issuer kid now (resolve_key lib v p kid now)
  unfolding resolve_key
  resolve-SoundKey v p kid now =
      first-SoundKey p kid now (get_jwks lib v p false now) (get-SoundKeys v p false now)
