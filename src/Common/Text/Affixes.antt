-- ===== src/Common/Text/Affixes.antt =====
-- Prefixes, suffixes and splits of texts, against concatenation.
use Prim.Native.Char.{Char, code}
use Prim.Native.String.{String, ◌++◌}
use mathlib.Core.Bool.{true, false}
use mathlib.Core.Logic.{inl, inr}
use mathlib.Core.Path.{◌≡◌, refl, ap, ap₂, ◌∙◌, sym}
use native.Mathlib.Omega.{arith}
use text.Mathlib.Text.{◌==◌}
use text.Mathlib.TextEquality.{eq_iff, Char-path}
use text.Mathlib.TextLemmas.{nil-append, cons-append}
use text.Mathlib.TextPositions.{eq_refl}
use mathlib.Core.List
use oauth4os.Common.Tests.{nat_eq, Bool-cases}
use oauth4os.Common.Text.{has_prefix, has_suffix, contains_text, split, split_first}

code_eq : (a b : Char) → nat_eq (code a) (code b) ≡ true → a ≡ b
code_eq a b h = Char-path a b (ground arith)

pub prefix-append : (p r : String) → has_prefix (p ++ r) p ≡ true
unfolding has_prefix
prefix-append String.[] r = refl
prefix-append (String.◌∷◌ c p) r = rw cons-append (ground (arith, prefix-append p r))

pub prefix_split : (s p : String) → has_prefix s p ≡ true → (r : String) × (s ≡ p ++ r)
unfolding has_prefix
prefix_split s String.[] h = (s, sym (nil-append s))
prefix_split String.[] (String.◌∷◌ c p) h = absurd (ground arith)
prefix_split (String.◌∷◌ a s) (String.◌∷◌ c p) h =
    let (r, e) = prefix_split s p (ground arith) in
    (r, ap₂ String.◌∷◌ (code_eq a c (ground arith)) e ∙ sym (cons-append c p r))

pub suffix-append : (r q : String) → has_suffix (r ++ q) q ≡ true
unfolding has_suffix
suffix-append String.[] String.[] = refl
suffix-append String.[] (String.◌∷◌ c q) = rw nil-append (ground (arith, eq_refl (String.◌∷◌ c q)))
suffix-append (String.◌∷◌ c r) q = rw cons-append (ground (arith, suffix-append r q))

pub suffix_split : (s q : String) → has_suffix s q ≡ true → (r : String) × (s ≡ r ++ q)
unfolding has_suffix
suffix_split String.[] q h = (String.[], sym ((eq_iff q "").0 h) ∙ sym (nil-append q))
suffix_split (String.◌∷◌ c s) q h = elim (Bool-cases (String.◌∷◌ c s == q)) [
  | inl e ↦ (String.[], (eq_iff _ q).0 e ∙ sym (nil-append q))
  | inr e ↦
      let (r, t) = suffix_split s q (ground arith) in
      (String.◌∷◌ c r, ap (String.◌∷◌ c) t ∙ sym (cons-append c r q))
]

-- A text with no star in it.
abbrev pub IsPlain : String → Type 0
IsPlain s = contains_text s "*" ≡ false

pub star_in : (p q : String) → contains_text (p ++ ("*" ++ q)) "*" ≡ true
unfolding contains_text
star_in String.[] q = rw nil-append (rw cons-append refl)
star_in (String.◌∷◌ c p) q = rw cons-append (ground (arith, star_in p q))

IsPlain-tail :
    (c : Char) (s : String) → IsPlain (String.◌∷◌ c s) → (nat_eq (code c) b'*' ≡ false) × IsPlain s
unfolding contains_text
IsPlain-tail c s h = ground arith

split-plain : (s : String) → IsPlain s → split_first b'*' s ≡ (s, List.[])
unfolding split_first
split-plain String.[] h = refl
split-plain (String.◌∷◌ c s) h =
    let (here, rest) = IsPlain-tail c s h in rw (split-plain s rest) (rw here)

split-star :
    (p q : String)
    → IsPlain p
    → IsPlain q
    → split_first b'*' (p ++ ("*" ++ q)) ≡ (p, List.◌∷◌ q List.[])
unfolding split_first
split-star String.[] q hp hq = rw nil-append (rw (cons-append, nil-append) (rw (split-plain q hq)))
split-star (String.◌∷◌ c p) q hp hq =
    let (here, rest) = IsPlain-tail c p hp in rw cons-append (rw (split-star p q rest hq) (rw here))

pub split_one_star :
    (p q : String)
    → IsPlain p
    → IsPlain q
    → split b'*' (p ++ ("*" ++ q)) ≡ List.◌∷◌ p (List.◌∷◌ q List.[])
unfolding split
split_one_star p q hp hq = rw (split-star p q hp hq)
