-- ===== src/Common/Text/Pieces.antt =====
-- Cutting and trimming texts that are put together from pieces.
use Prim.Native.Nat.{ℕ}
use Prim.Native.Char.{Char, code}
use Prim.Native.String.{String, ◌++◌}
use mathlib.Core.Path.{◌≡◌, refl}
use mathlib.Core.Logic.{inl, inr}
use mathlib.Core.Bool.{Bool, true, false}
use mathlib.Core.Option.{none, some}
use text.Mathlib.TextLemmas.{nil-append, cons-append}
use oauth4os.Common.Tests.{nat_eq, Bool-cases, Option-cases}
use oauth4os.Common.Text.{trim_right, cons_unless_blank}
use oauth4os.Common.Text.Affixes.{prefix-append}
use oauth4os.Common.Text.Cut.{drop_as, trim_prefix, cut_at}

drop_as-append : (p r : String) → drop_as (p ++ r) p ≡ r
unfolding drop_as
drop_as-append String.[] r = nil-append r
drop_as-append (String.◌∷◌ c p) r = rw cons-append (drop_as-append p r)

pub trim_prefix-append : (p r : String) → trim_prefix (p ++ r) p ≡ r
unfolding trim_prefix
trim_prefix-append p r = rw (prefix-append p r) (drop_as-append p r)

-- The character does not occur in the text.
abbrev pub Without : ℕ → String → Type 0
Without sep s = cut_at sep s ≡ none

Without-head :
    (sep : ℕ) (c : Char) (s : String)
    → Without sep (String.◌∷◌ c s)
    → (nat_eq (code c) sep ≡ false) × Without sep s
unfolding cut_at
Without-head sep c s h = elim (Bool-cases (nat_eq (code c) sep)) [
  | inl hit ↦ absurd (cc (rw hit at h))
  | inr miss ↦ elim (Option-cases (cut_at sep s)) [
    | inl lost ↦ (miss, lost)
    | inr (x, found) ↦ absurd (cc (rw (miss, found) at h))
  ]
]

pub cut_at-append :
    (sep : ℕ) (c : Char) (s r : String)
    → nat_eq (code c) sep ≡ true
    → Without sep s
    → cut_at sep (s ++ String.◌∷◌ c r) ≡ some (s, r)
unfolding cut_at
cut_at-append sep c String.[] r hit h = rw nil-append (rw hit refl)
cut_at-append sep c (String.◌∷◌ d s) r hit h =
    let (miss, lost) = Without-head sep d s h in
    rw cons-append (rw miss (rw (cut_at-append sep c s r hit lost) refl))

pub Without-append : (sep : ℕ) (s t : String) → Without sep s → Without sep t → Without sep (s ++ t)
unfolding cut_at
Without-append sep String.[] t h k = rw nil-append k
Without-append sep (String.◌∷◌ c s) t h k =
    let (miss, lost) = Without-head sep c s h in
    rw cons-append (rw miss (rw (Without-append sep s t lost k) refl))

keep_blank :
    (b : Bool) (c : Char) (s : String) (d : Char) (t : String)
    → cons_unless_blank b c (s ++ String.◌∷◌ d t) ≡ String.◌∷◌ c (s ++ String.◌∷◌ d t)
keep_blank true c String.[] d t = rw nil-append refl
keep_blank true c (String.◌∷◌ e s) d t = rw cons-append refl
keep_blank false c s d t = refl

-- What ends in a text that is trimmed and not empty has nothing to trim on the right.
pub trim_right-append :
    (f : ℕ → Bool) (s : String) (d : Char) (t : String)
    → trim_right f (String.◌∷◌ d t) ≡ String.◌∷◌ d t
    → trim_right f (s ++ String.◌∷◌ d t) ≡ s ++ String.◌∷◌ d t
unfolding trim_right
trim_right-append f String.[] d t h = rw nil-append h
trim_right-append f (String.◌∷◌ c s) d t h =
    rw cons-append (rw (trim_right-append f s d t h) (keep_blank (f (code c)) c s d t))
