-- ===== src/Common/Text.antt =====
-- Text as Go's `strings` package reads it: strings.Fields, strings.Join, unicode.IsSpace.
pub mod Affixes
pub mod Cut
pub mod Sizes
pub mod Pieces
use Prim.Native.Nat.{ℕ}
use Prim.Native.Char.{Char, code}
use Prim.Native.String.{String, ◌++◌}
use mathlib.Core.Bool.{Bool, true, false, ◌&&◌, ◌||◌}
use text.Mathlib.Text.{◌==◌}
use mathlib.Core.List.{List}
use mathlib.Core.Path.{◌≡◌, refl}
use oauth4os.Common.Tests.{leb, nat_eq, if◌then◌else◌}

-- unicode.IsSpace
unfoldable pub is_space : ℕ → Bool
is_space c =
    (leb 9 c && leb c 13)
    || (nat_eq c 32
        || (nat_eq c 0x85
            || (nat_eq c 0xa0
                || (nat_eq c 0x1680
                    || ((leb 0x2000 c && leb c 0x200a)
                        || (nat_eq c 0x2028
                            || (nat_eq c 0x2029
                                || (nat_eq c 0x202f || (nat_eq c 0x205f || nat_eq c 0x3000)))))))))

-- A finished word goes in front, unless it is empty.
abbrev pub keep_word : String → List String → List String
keep_word String.[] ws = ws
keep_word (String.◌∷◌ c w) ws = List.◌∷◌ (String.◌∷◌ c w) ws

-- The word that the text begins with (empty before a separator), and the words after it.
unfoldable pub words : (ℕ → Bool) → String → String × List String
words sep String.[] = (String.[], List.[])
words sep (String.◌∷◌ c s) =
    let (w, ws) = words sep s in
    if sep (code c) then (String.[], keep_word w ws) else (String.◌∷◌ c w, ws)

-- strings.FieldsFunc
unfoldable pub fields_by : (ℕ → Bool) → String → List String
unfolding words
fields_by sep s = let (w, ws) = words sep s in keep_word w ws

-- strings.Fields
unfoldable pub fields : String → List String
unfolding fields_by is_space
fields s = fields_by is_space s

-- strings.Join(parts, sep)
unfoldable pub join : List String → String → String
join List.[] sep = ""
join (List.◌∷◌ p List.[]) sep = p
join (List.◌∷◌ p (List.◌∷◌ q r)) sep = p ++ (sep ++ join (List.◌∷◌ q r) sep)

fields_words :
    fields "  read:logs  write\tx " ≡ List.◌∷◌ "read:logs" (List.◌∷◌ "write" (List.◌∷◌ "x" List.[]))
unfolding fields
fields_words = refl

-- strings.HasPrefix(s, prefix)
unfoldable pub has_prefix : String → String → Bool
has_prefix s String.[] = true
has_prefix String.[] (String.◌∷◌ c p) = false
has_prefix (String.◌∷◌ a s) (String.◌∷◌ c p) = nat_eq (code a) (code c) && has_prefix s p

-- strings.HasSuffix(s, suffix)
unfoldable pub has_suffix : String → String → Bool
has_suffix String.[] t = t == ""
has_suffix (String.◌∷◌ c s) t = (String.◌∷◌ c s) == t || has_suffix s t

-- strings.Contains(s, part)
unfoldable pub contains_text : String → String → Bool
unfolding has_prefix
contains_text String.[] t = has_prefix "" t
contains_text (String.◌∷◌ c s) t = has_prefix (String.◌∷◌ c s) t || contains_text s t

-- The part of a text up to the first separator, and the parts after it.
unfoldable pub split_first : ℕ → String → String × List String
split_first sep String.[] = (String.[], List.[])
split_first sep (String.◌∷◌ c s) =
    let (p, ps) = split_first sep s in
    if nat_eq (code c) sep then (String.[], List.◌∷◌ p ps) else (String.◌∷◌ c p, ps)

-- strings.Split(s, sep), for a separator of one character
unfoldable pub split : ℕ → String → List String
unfolding split_first
split sep s = let (p, ps) = split_first sep s in List.◌∷◌ p ps

-- strings.TrimLeftFunc
unfoldable pub trim_left : (ℕ → Bool) → String → String
trim_left f String.[] = String.[]
trim_left f (String.◌∷◌ c s) =
    let rest = trim_left f s in if f (code c) then rest else String.◌∷◌ c s

abbrev pub cons_unless_blank : Bool → Char → String → String
cons_unless_blank true c String.[] = String.[]
cons_unless_blank true c (String.◌∷◌ a s) = String.◌∷◌ c (String.◌∷◌ a s)
cons_unless_blank false c s = String.◌∷◌ c s

-- strings.TrimRightFunc: what is left of the rest says whether a character stands at the end
unfoldable pub trim_right : (ℕ → Bool) → String → String
trim_right f String.[] = String.[]
trim_right f (String.◌∷◌ c s) = cons_unless_blank (f (code c)) c (trim_right f s)

-- strings.TrimSpace
unfoldable pub trim_space : String → String
unfolding trim_left trim_right is_space
trim_space s = trim_right is_space (trim_left is_space s)

text_functions :
    (has_suffix "logs-1" "-1" ≡ true)
    × (contains_text "a,b" ",b" ≡ true)
    × (split b',' "a,,b" ≡ List.◌∷◌ "a" (List.◌∷◌ "" (List.◌∷◌ "b" List.[])))
    × (trim_space " a b\t" ≡ "a b")
unfolding has_suffix contains_text split trim_space
text_functions = (refl, refl, refl, refl)
