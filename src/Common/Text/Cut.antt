-- ===== src/Common/Text/Cut.antt =====
-- Cutting texts: strings.TrimPrefix, strings.TrimSuffix, and the parts around a character.
use Prim.Native.Nat.{ℕ, suc}
use Prim.Native.Char.{code}
use Prim.Native.String.{String}
use mathlib.Core.Option.{Option, none, some}
use text.Mathlib.Text.{◌==◌}
use oauth4os.Common.Tests.{nat_eq, if◌then◌else◌}
use oauth4os.Common.Text.{has_prefix, has_suffix}

-- len, by characters
abbrev pub chars : String → ℕ
chars String.[] = 0
chars (String.◌∷◌ c s) = suc (chars s)

-- The text without as many characters at its beginning as the other text has.
unfoldable pub drop_as : String → String → String
drop_as s String.[] = s
drop_as String.[] (String.◌∷◌ c p) = String.[]
drop_as (String.◌∷◌ a s) (String.◌∷◌ c p) = drop_as s p

-- strings.TrimPrefix(s, prefix)
unfoldable pub trim_prefix : String → String → String
unfolding drop_as
trim_prefix s p = if has_prefix s p then drop_as s p else s

-- A text up to where the rest of it is the suffix.
unfoldable pub up_to : String → String → String
up_to String.[] t = String.[]
up_to (String.◌∷◌ c s) t =
    let rest = up_to s t in if (String.◌∷◌ c s) == t then String.[] else String.◌∷◌ c rest

-- strings.TrimSuffix(s, suffix)
unfoldable pub trim_suffix : String → String → String
unfolding up_to
trim_suffix s t = if has_suffix s t then up_to s t else s

-- The text before the first such character and the text after it (strings.SplitN with 2, Index).
unfoldable pub cut_at : ℕ → String → Option (String × String)
cut_at sep String.[] = none
cut_at sep (String.◌∷◌ c s) =
    let rest = cut_at sep s in
    if nat_eq (code c) sep
    then some (String.[], s)
    else elim rest [ none ↦ none | some (a, b) ↦ some (String.◌∷◌ c a, b) ]
