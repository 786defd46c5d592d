-- ===== src/Cache/Bounds.antt =====
-- internal/cache/cache.go: how many entries there can be, and what a lookup can give.
use Prim.Native.Nat.{max}
use oauth4os.Common.{
  ℕ, ◌+◌, ◌≤◌, String, ◌≡◌, refl, sym, ◌∙◌, ◌⊎◌, inl, inr, true, ◌||◌, none, some, List, [], ◌∷◌,
  ◌==◌, eq_refl, Bool-cases, ltb, leb, arith, if◌then◌else◌, length,
}
use mathlib.Core.Path.{subst}
use oauth4os.Common.Dict
use oauth4os.Common.Dict.{Dict, size, get-put}
use oauth4os.Common.Dict.Size.{HasKey, size-remove-le, size-remove-lt, size-put-le, size-sweep-le}
use oauth4os.Cache.Store.{Entry, Cache, new, expired, get, oldest_from, evict, set, reap}

taken :
    (k : String) (rest : List (String × Entry)) (o : String)
    → (o ≡ k) ⊎ HasKey o rest
    → ((k == o) ≡ true) ⊎ HasKey o rest
taken k rest o (inl e) = inl (rw e (eq_refl k))
taken k rest o (inr h) = inr h

passed :
    (k : String) (v : Entry) (rest : List (String × Entry)) (o oldest : String)
    → (o ≡ oldest) ⊎ HasKey o rest
    → (o ≡ oldest) ⊎ HasKey o ((k, v) ∷ rest)
passed k v rest o oldest (inl e) = inl e
passed k v rest o oldest (inr h) = inr (inr h)

-- What the loop returns is the key it started with or the key of an entry.
oldest_from-HasKey :
    (r : List (String × Entry)) (oldest : String) (t : ℕ)
    → (oldest_from r oldest t ≡ oldest) ⊎ HasKey (oldest_from r oldest t) r
unfolding oldest_from
oldest_from-HasKey [] oldest t = inl refl
oldest_from-HasKey ((k, v) ∷ rest) oldest t =
    elim (Bool-cases (oldest == "" || ltb v.expires_at t)) [
      | inl older ↦
          let same : oldest_from ((k, v) ∷ rest) oldest t ≡ oldest_from rest k v.expires_at =
            rw older refl in
          subst (λ o. (o ≡ oldest) ⊎ HasKey o ((k, v) ∷ rest)) (sym same)
            (inr (taken k rest _ (oldest_from-HasKey rest k v.expires_at)))
      | inr newer ↦
          let same : oldest_from ((k, v) ∷ rest) oldest t ≡ oldest_from rest oldest t =
            rw newer refl in
          subst (λ o. (o ≡ oldest) ⊎ HasKey o ((k, v) ∷ rest)) (sym same)
            (passed k v rest _ oldest (oldest_from-HasKey rest oldest t))
    ]

-- In a cache with entries it is the key of one.
oldest-HasKey :
    (e : String × Entry) (r : List (String × Entry)) → HasKey (oldest_from (e ∷ r) "" 0) (e ∷ r)
unfolding oldest_from
oldest-HasKey (k, v) r = elim (oldest_from-HasKey r k v.expires_at) [
  | inl e ↦ inl (rw e (eq_refl k))
  | inr h ↦ inr h
]

entries-cases : (r : List (String × Entry)) → (length r ≡ 0) ⊎ HasKey (oldest_from r "" 0) r
entries-cases [] = inl refl
entries-cases (e ∷ r) = inr (oldest-HasKey e r)

-- After the eviction there is room for one entry.
evict-room :
    (c : Cache) (n : ℕ) → c.max_size ≡ n → size c.entries ≤ max 1 n → size (evict c) + 1 ≤ max 1 n
unfolding evict
evict-room c n same few = elim (Bool-cases (leb c.max_size (size c.entries))) [
  | inr room ↦ rw room (ground (arith, same))
  | inl full ↦ elim (entries-cases c.entries.range) [
    | inl none_in ↦
        rw full
          (omega (arith, none_in, size-remove-le c.entries (oldest_from c.entries.range "" 0)))
    | inr there ↦
        rw full
          (omega (arith, few, size-remove-lt c.entries (oldest_from c.entries.range "" 0) there))
  ]
]

-- A call of the cache that writes.
pub data Call : Type 0 where
  sets : String → ℕ → Dict String → String → ℕ → Call
  reaps : ℕ → Call

abbrev pub step : Cache → Call → Cache
step c (sets key status header body now) = set c key status header body now
step c (reaps now) = reap c now

abbrev pub run : Cache → List Call → Cache
run c [] = c
run c (call ∷ rest) = run (step c call) rest

abbrev Within : ℕ → Cache → Type 0
Within n c = (c.max_size ≡ n) × (size c.entries ≤ max 1 n)

set-Within :
    (c : Cache) (n : ℕ) (key : String) (status : ℕ) (header : Dict String) (body : String) (now : ℕ)
    → Within n c
    → Within n (set c key status header body now)
unfolding set evict
set-Within c n key status header body now (same, few) =
    let more =
      size-put-le (evict c) key
        (record { body = body; status_code = status; header = header; expires_at = now + c.ttl }) in
    (same, omega (arith, more, evict-room c n same few))

step-Within : (c : Cache) (n : ℕ) (call : Call) → Within n c → Within n (step c call)
unfolding reap
step-Within c n (sets key status header body now) w = set-Within c n key status header body now w
step-Within c n (reaps now) w = (w.0, omega (arith, w.1, size-sweep-le c.entries (expired now)))

run-Within : (calls : List Call) (c : Cache) (n : ℕ) → Within n c → Within n (run c calls)
run-Within [] c n w = w
run-Within (call ∷ rest) c n w = run-Within rest (step c call) n (step-Within c n call w)

-- A cache never has more entries than it was made for, or one where it was made for none, whatever is
-- stored in it and whenever it is swept.
pub run-new-bound :
    (ttl max_size : ℕ) (calls : List Call)
    → size (run (new ttl max_size) calls).entries ≤ max 1 max_size
unfolding new Dict.empty
run-new-bound ttl max_size calls =
    (run-Within calls (new ttl max_size) max_size (refl, omega arith)).1

-- After a response is stored, a lookup of its key gives that response, up to the end of the cache's
-- time and no longer, whatever was evicted for it.
pub get-set :
    (c : Cache) (key : String) (status : ℕ) (header : Dict String) (body : String) (now later : ℕ)
    → get (set c key status header body now) key later ≡ (
        if ltb (now + c.ttl) later
        then none
        else some (record {
          body = body;
          status_code = status;
          header = header;
          expires_at = now + c.ttl;
        }))
unfolding get set
get-set c key status header body now later =
    let entry : Entry = record {
      body = body;
      status_code = status;
      header = header;
      expires_at = now + c.ttl;
    } in
    let there : Dict.get (Dict.put (evict c) key entry) key ≡ some entry =
      get-put (evict c) key key entry ∙ rw (eq_refl key) refl in
    rw (there, get, set) refl
