-- ===== src/Pkce/Words.antt =====
-- internal/pkce/handler.go: the index loop of `split` yields the words of the text.
use Prim.Native.Char.{Char, code}
use Prim.Native.String.{◌++◌}
use mathlib.Core.List.{append_assoc, append-nil}
use text.Mathlib.TextLemmas.{nil-append, cons-append, cons-ne-nil}
use text.Mathlib.TextLemmas.{append-nil as append_nil_text, append_assoc as append_assoc_text}
use oauth4os.Common.{
  String, ◌≡◌, refl, sym, ap, ◌∙◌, inl, inr, List, ◌==◌, eq_iff, Bool-cases, arith,
}
use oauth4os.Common.{◌++◌ as append, [] as nil, ◌∷◌ as cons}
use oauth4os.Common.Text.{fields_by, words, keep_word}
use oauth4os.Pkce.Scopes.{is_blank, add_word, split_loop, split, drop_empty, split_scopes}

-- The words of a text whose first word has begun with `word`.
abbrev glue : String → String × List String → List String
glue word (w, ws) = keep_word (word ++ w) ws

add_word-keep :
    (result : List String) (word : String) (ws : List String)
    → append (add_word result word) ws ≡ append result (keep_word word ws)
add_word-keep result String.[] ws = refl
add_word-keep result (String.◌∷◌ c w) ws = append_assoc result (cons (String.◌∷◌ c w) nil) ws

add_word-end :
    (result : List String) (word : String)
    → add_word result word ≡ append result (keep_word word nil)
add_word-end result String.[] = sym (append-nil result)
add_word-end result (String.◌∷◌ c w) = refl

glue_blank :
    (word w : String) (ws : List String)
    → glue word ("", keep_word w ws) ≡ keep_word word (keep_word w ws)
glue_blank word w ws = ap (λ x. keep_word x (keep_word w ws)) (append_nil_text word)

glue_letter :
    (word : String) (c : Char) (w : String) (ws : List String)
    → keep_word ((word ++ String.◌∷◌ c "") ++ w) ws ≡ keep_word (word ++ String.◌∷◌ c w) ws
glue_letter word c w ws =
    ap (λ x. keep_word x ws)
      (append_assoc_text word (String.◌∷◌ c "") w
        ∙ ap (λ x. word ++ x) (cons-append c "" w ∙ ap (String.◌∷◌ c) (nil-append w)))

split_loop-words :
    (s : String) (result : List String) (word : String)
    → split_loop s result word ≡ append result (glue word (words is_blank s))
unfolding split_loop words
split_loop-words String.[] result word =
    add_word-end result word
    ∙ ap (λ x. append result (keep_word x nil)) (sym (append_nil_text word))
split_loop-words (String.◌∷◌ c s) result word = elim (Bool-cases (is_blank (code c))) [
  | inl e ↦
      let (w, ws) = words is_blank s in
      rw e (
        split_loop-words s (add_word result word) ""
        ∙ ap (λ x. append (add_word result word) (keep_word x ws)) (nil-append w)
        ∙ add_word-keep result word (keep_word w ws)
        ∙ ap (append result) (sym (glue_blank word w ws)))
  | inr e ↦
      let (w, ws) = words is_blank s in
      rw e (
        split_loop-words s result (word ++ String.◌∷◌ c "")
        ∙ ap (append result) (glue_letter word c w ws))
]

split-words : (s : String) → split s ≡ fields_by is_blank s
unfolding split fields_by
split-words s =
    split_loop-words s nil ""
    ∙ ap (λ x. keep_word x (words is_blank s).1) (nil-append (words is_blank s).0)

drop_empty-keep :
    (w : String) (ws : List String)
    → drop_empty ws ≡ ws
    → drop_empty (keep_word w ws) ≡ keep_word w ws
unfolding drop_empty
drop_empty-keep String.[] ws h = h
drop_empty-keep (String.◌∷◌ c w) ws h =
    rw h (ground (arith, eq_iff (String.◌∷◌ c w) "", cons-ne-nil c w))

drop_empty-words : (s : String) → drop_empty (words is_blank s).1 ≡ (words is_blank s).1
unfolding words
drop_empty-words String.[] = unfold drop_empty in refl
drop_empty-words (String.◌∷◌ c s) = elim (Bool-cases (is_blank (code c))) [
  | inl e ↦ rw e (drop_empty-keep (words is_blank s).0 (words is_blank s).1 (drop_empty-words s))
  | inr e ↦ rw e (drop_empty-words s)
]

-- The scopes that the loop with indices cuts out of a text are its words, the longest runs of
-- characters without a blank, in order, and none of them is dropped afterwards.
pub split_scopes-words : (s : String) → split_scopes s ≡ fields_by is_blank s
unfolding split_scopes
split_scopes-words s = elim (Bool-cases (s == "")) [
  | inl e ↦ rw ((eq_iff s "").0 e) (unfold fields_by words in refl)
  | inr e ↦ rw e (
      ap drop_empty (split-words s)
      ∙ (unfold fields_by in
          drop_empty-keep (words is_blank s).0 (words is_blank s).1 (drop_empty-words s)))
]
