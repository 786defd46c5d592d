-- ===== src/Common/Dict/Count.antt =====
-- How many entries of a dictionary pass a test, and how the operations change that.
use Prim.Native.Nat.{ℕ, ◌+◌, ◌≤◌}
use Prim.Native.String.{String}
use mathlib.Core.Path.{◌≡◌, refl}
use mathlib.Core.Bool.{Bool, true, false}
use mathlib.Core.List.{List, [], ◌∷◌}
use native.Mathlib.Omega.{arith}
use oauth4os.Common.Tests.{if◌then◌else◌}
use oauth4os.Common.Dict.{Dict, empty, put, remove, adjust, sweep, without, insert, update, swept}

abbrev pub one_if : Bool → ℕ
one_if true = 1
one_if false = 0

module _ {ℓ} {V : Type ℓ} where
  count_entries : (V → Bool) → List (String × V) → ℕ
  count_entries p [] = 0
  count_entries p ((k, v) ∷ r) = let n = count_entries p r in if p v then n + 1 else n

  -- for _, v := range d { if p(v) { n++ } }
  unfoldable pub count_where : Dict V → (V → Bool) → ℕ
  unfolding count_entries
  count_where d p = count_entries p d.range

  without-le :
      (p : V → Bool) (k : String) (r : List (String × V))
      → count_entries p (without k r) ≤ count_entries p r
  unfolding count_entries without
  without-le p k [] = omega arith
  without-le p k ((i, v) ∷ r) = ground (arith, without-le p k r)

  insert-le :
      (p : V → Bool) (k : String) (v : V) (r : List (String × V))
      → count_entries p (insert k v r) ≤ count_entries p r + one_if (p v)
  unfolding count_entries insert
  insert-le p k v [] = ground arith
  insert-le p k v ((i, w) ∷ r) = ground (arith, insert-le p k v r)

  update-eq :
      (p : V → Bool) (k : String) (f : V → V) (r : List (String × V))
      → ((v : V) → p (f v) ≡ p v)
      → count_entries p (update k f r) ≡ count_entries p r
  unfolding count_entries update
  update-eq p k f [] h = refl
  update-eq p k f ((i, v) ∷ r) h = ground (arith, h v, update-eq p k f r h)

  swept-le :
      (p q : V → Bool) (r : List (String × V)) → count_entries p (swept q r) ≤ count_entries p r
  unfolding count_entries swept
  swept-le p q [] = omega arith
  swept-le p q ((i, v) ∷ r) = ground (arith, swept-le p q r, without-le p i (swept q r))

  swept-zero : (p : V → Bool) (r : List (String × V)) → count_entries p (swept p r) ≡ 0
  unfolding count_entries swept
  swept-zero p [] = refl
  swept-zero p ((i, v) ∷ r) = ground (arith, swept-zero p r, without-le p i (swept p r))

  pub count_where-put :
      (d : Dict V) (p : V → Bool) (k : String) (v : V)
      → count_where (put d k v) p ≤ count_where d p + one_if (p v)
  unfolding count_where put
  count_where-put d p k v = insert-le p k v d.range

  pub count_where-remove :
      (d : Dict V) (p : V → Bool) (k : String) → count_where (remove d k) p ≤ count_where d p
  unfolding count_where remove
  count_where-remove d p k = without-le p k d.range

  pub count_where-adjust :
      (d : Dict V) (p : V → Bool) (k : String) (f : V → V)
      → ((v : V) → p (f v) ≡ p v)
      → count_where (adjust d k f) p ≡ count_where d p
  unfolding count_where adjust
  count_where-adjust d p k f h = update-eq p k f d.range h

  pub count_where-sweep :
      (d : Dict V) (p q : V → Bool) → count_where (sweep d q) p ≤ count_where d p
  unfolding count_where sweep
  count_where-sweep d p q = swept-le p q d.range

  pub count_where-sweep_self : (d : Dict V) (p : V → Bool) → count_where (sweep d p) p ≡ 0
  unfolding count_where sweep
  count_where-sweep_self d p = swept-zero p d.range

  pub count_where-empty : (p : V → Bool) → count_where empty p ≡ 0
  unfolding count_where empty
  count_where-empty p = refl
