-- ===== src/Pkce/Scopes.antt =====
-- internal/pkce/handler.go: split and splitScopes, against the words of a text.
use Prim.Native.Char.{code}
use Prim.Native.String.{◌++◌}
use oauth4os.Common.{ℕ, String, Bool, List, ◌==◌, nat_eq, if◌then◌else◌}
use oauth4os.Common.{◌++◌ as append, [] as nil, ◌∷◌ as cons}

abbrev pub is_blank : ℕ → Bool
is_blank c = nat_eq c 32

-- `if i > start { result = append(result, s[start:i]) }`
abbrev pub add_word : List String → String → List String
add_word result String.[] = result
add_word result (String.◌∷◌ c w) = append result (cons (String.◌∷◌ c w) nil)

-- The loop of `split`: the words so far, and s[start:i], the word that is being read.
unfoldable pub split_loop : String → List String → String → List String
split_loop String.[] result word = add_word result word
split_loop (String.◌∷◌ c s) result word =
    split_loop s (if is_blank (code c) then add_word result word else result)
      (if is_blank (code c) then "" else word ++ String.◌∷◌ c "")

unfoldable pub split : String → List String
unfolding split_loop
split s = split_loop s nil ""

-- the loop of splitScopes
unfoldable pub drop_empty : List String → List String
drop_empty List.[] = nil
drop_empty (List.◌∷◌ p ps) = let rest = drop_empty ps in if p == "" then rest else cons p rest

unfoldable pub split_scopes : String → List String
unfolding split drop_empty
split_scopes s = if s == "" then nil else drop_empty (split s)
