-- ===== src/Common/Text/Sizes.antt =====
-- How long the parts of a text are that cutting it gives.
use Prim.Native.Nat.{ℕ, suc, ◌≤◌, ◌<◌}
use Prim.Native.Char.{Char, code}
use Prim.Native.String.{String}
use mathlib.Core.Path.{◌≡◌, sym, ap}
use mathlib.Core.Logic.{inl, inr}
use mathlib.Core.Bool.{Bool, true, false}
use mathlib.Core.Option.{some}
use native.Mathlib.Omega.{arith}
use oauth4os.Common.Tests.{nat_eq, Bool-cases, Option-cases, eq_of_some-eq}
use oauth4os.Common.Text.{trim_left, trim_right, trim_space, is_space, cons_unless_blank}
use oauth4os.Common.Text.Cut.{chars, drop_as, trim_prefix, cut_at}

trim_left-le : (f : ℕ → Bool) (s : String) → chars (trim_left f s) ≤ chars s
unfolding trim_left
trim_left-le f String.[] = omega arith
trim_left-le f (String.◌∷◌ c s) = ground (arith, trim_left-le f s)

blank-le : (b : Bool) (c : Char) (s : String) → chars (cons_unless_blank b c s) ≤ suc (chars s)
blank-le true c String.[] = omega arith
blank-le true c (String.◌∷◌ a s) = omega arith
blank-le false c s = omega arith

trim_right-le : (f : ℕ → Bool) (s : String) → chars (trim_right f s) ≤ chars s
unfolding trim_right
trim_right-le f String.[] = omega arith
trim_right-le f (String.◌∷◌ c s) =
    omega (arith, blank-le (f (code c)) c (trim_right f s), trim_right-le f s)

pub trim_space-le : (s : String) → chars (trim_space s) ≤ chars s
unfolding trim_space
trim_space-le s =
    omega (arith, trim_right-le is_space (trim_left is_space s), trim_left-le is_space s)

pub drop_as-le : (s p : String) → chars (drop_as s p) ≤ chars s
unfolding drop_as
drop_as-le s String.[] = omega arith
drop_as-le String.[] (String.◌∷◌ c p) = omega arith
drop_as-le (String.◌∷◌ a s) (String.◌∷◌ c p) = omega (arith, drop_as-le s p)

pub trim_prefix-le : (s p : String) → chars (trim_prefix s p) ≤ chars s
unfolding trim_prefix
trim_prefix-le s p = ground (arith, drop_as-le s p)

-- The text after a character that was found is shorter.
pub cut_at-lt : (sep : ℕ) (s a b : String) → cut_at sep s ≡ some (a, b) → chars b < chars s
unfolding cut_at
cut_at-lt sep String.[] a b h = absurd (cc h)
cut_at-lt sep (String.◌∷◌ c s) a b h = elim (Bool-cases (nat_eq (code c) sep)) [
  | inl hit ↦
      let same : s ≡ b = ap (λ x. x.1) (eq_of_some-eq (String.[], s) (a, b) (rw hit at h)) in
      rw (sym same) (omega arith)
  | inr miss ↦ elim (Option-cases (cut_at sep s)) [
    | inl lost ↦ absurd (cc (rw (miss, lost) at h))
    | inr ((a', b'), found) ↦
        let same : b' ≡ b =
          ap (λ x. x.1) (eq_of_some-eq (String.◌∷◌ c a', b') (a, b) (rw (miss, found) at h)) in
        omega (arith, cut_at-lt sep s a' b' found, ap chars same)
  ]
]
