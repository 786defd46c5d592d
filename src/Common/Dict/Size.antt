-- ===== src/Common/Dict/Size.antt =====
-- The number of entries of a dictionary, and how the operations change it.
use Prim.Native.Nat.{◌+◌, ◌≤◌, ◌<◌}
use Prim.Native.String.{String}
use mathlib.Core.Path.{◌≡◌}
use mathlib.Core.Logic.{inl, inr}
use mathlib.Core.Bool.{Bool, true}
use mathlib.Core.List.{List, [], ◌∷◌}
use native.Mathlib.Omega.{arith}
use text.Mathlib.Text.{◌==◌}
use oauth4os.Common.Lists.{length, Any}
use oauth4os.Common.Dict.{Dict, put, remove, sweep, size, without, insert, swept}

module _ {ℓ} {V : Type ℓ} where
  -- for k := range d
  abbrev pub keys : List (String × V) → List String
  keys [] = []
  keys ((i, v) ∷ rest) = i ∷ keys rest

  -- some entry has the key
  abbrev pub HasKey : String → List (String × V) → Type 0
  HasKey k r = Any (λ i. (i == k) ≡ true) (keys r)

  without-le : (k : String) (r : List (String × V)) → length (without k r) ≤ length r
  unfolding without
  without-le k [] = omega arith
  without-le k ((i, v) ∷ r) = ground (arith, without-le k r)

  without-lt : (k : String) (r : List (String × V)) → HasKey k r → length (without k r) < length r
  unfolding without
  without-lt k [] h = elim h [ ]
  without-lt k ((i, v) ∷ r) (inl hit) = ground (arith, without-le k r)
  without-lt k ((i, v) ∷ r) (inr more) = ground (arith, without-le k r, without-lt k r more)

  insert-le : (k : String) (v : V) (r : List (String × V)) → length (insert k v r) ≤ length r + 1
  unfolding insert
  insert-le k v [] = omega arith
  insert-le k v ((i, w) ∷ r) = ground (arith, insert-le k v r)

  swept-le : (p : V → Bool) (r : List (String × V)) → length (swept p r) ≤ length r
  unfolding swept
  swept-le p [] = omega arith
  swept-le p ((i, v) ∷ r) = ground (arith, swept-le p r, without-le i (swept p r))

  pub size-remove-le : (d : Dict V) (k : String) → size (remove d k) ≤ size d
  unfolding remove
  size-remove-le d k = without-le k d.range

  pub size-remove-lt : (d : Dict V) (k : String) → HasKey k d.range → size (remove d k) < size d
  unfolding remove
  size-remove-lt d k h = without-lt k d.range h

  pub size-put-le : (d : Dict V) (k : String) (v : V) → size (put d k v) ≤ size d + 1
  unfolding put
  size-put-le d k v = insert-le k v d.range

  pub size-sweep-le : (d : Dict V) (p : V → Bool) → size (sweep d p) ≤ size d
  unfolding sweep
  size-sweep-le d p = swept-le p d.range
