-- ===== src/Cedar/Termination.antt =====
-- internal/cedar/engine.go: the loop over the blocks of a policy ends.
use mathlib.Core.Path.{subst}
use oauth4os.Common.{
  ℕ, zero, suc, ◌<◌, String, ◌≡◌, ◌⊎◌, refl, inl, inr, false, ◌||◌, Option, none, some, List, [],
  ◌∷◌, ◌==◌, Bool-cases, Option-cases, arith,
}
use oauth4os.Common.Text.{has_prefix, trim_space}
use oauth4os.Common.Text.Cut.{chars, trim_prefix, cut_at}
use oauth4os.Common.Text.Sizes.{trim_space-le, trim_prefix-le, cut_at-lt}
use oauth4os.Cedar.Engine.{Policy, Condition, Effect}
use oauth4os.Cedar.Parser.{
  Failure, Parse, parsed, failed, unfinished, parse_with, parse_condition, parse_parts, split_ands,
  tail, parse_condition_block, cut_text, operators, and_then, set_when, set_unless, parse_block,
  parse_blocks, parse_rest, parse_effect, parse_policy, three, policy_of,
}

-- A value for which the predicate holds, or an error.
abbrev Gives : {A : Type 0} → (A → Type 0) → Parse A → Type 0
Gives P (parsed a) = P a
Gives P (failed e) = Unit
Gives P unfinished = ⊥

abbrev Ends : {A : Type 0} → Parse A → Type 0
Ends = Gives (λ a. Unit)

and_then-Gives :
    {A B : Type 0} (P : A → Type 0) (Q : B → Type 0) (r : Parse A) (next : A → Parse B)
    → Gives P r
    → ((a : A) → P a → Gives Q (next a))
    → Gives Q (and_then r next)
and_then-Gives P Q (parsed a) next h n = n a h
and_then-Gives P Q (failed e) next h n = tt
and_then-Gives P Q unfinished next h n = h

parse_with-Ends : (ops : List String) (s : String) → Ends (parse_with ops s)
unfolding parse_with
parse_with-Ends [] s = tt
parse_with-Ends (op ∷ ops) s = elim (Option-cases (cut_text op s)) [
  | inl lost ↦ rw (lost, parse_with) (parse_with-Ends ops s)
  | inr (found, e) ↦ rw (e, parse_with) tt
]

parse_parts-Ends : (parts : List String) → Ends (parse_parts parts)
unfolding parse_parts parse_condition
parse_parts-Ends [] = tt
parse_parts-Ends (part ∷ parts) = elim (Bool-cases (trim_space part == "")) [
  | inl blank ↦ rw (blank, parse_parts) (parse_parts-Ends parts)
  | inr text ↦
      rw (text, parse_parts)
        (and_then-Gives (λ c. Unit) (λ cs. Unit) (parse_condition (trim_space part)) _
          (parse_with-Ends operators (trim_space part))
          (λ c h.
            and_then-Gives (λ cs. Unit) (λ cs. Unit) (parse_parts parts) _ (parse_parts-Ends parts)
              (λ cs h'. tt)))
]

-- What is left after a block is shorter than the text.
abbrev Left : {A : Type 0} → ℕ → A × String → Type 0
Left n (a, rest) = chars rest < n

block-Left : (text : String) → Gives (Left (chars text)) (parse_condition_block text)
unfolding parse_condition_block
block-Left text = elim (Bool-cases (has_prefix (trim_space text) "{")) [
  | inr bare ↦ rw bare tt
  | inl opened ↦ elim (Option-cases (cut_at b'}' (trim_space text))) [
    | inl open_ ↦ rw (opened, open_) tt
    | inr ((before, after), e) ↦
        let shorter = cut_at-lt b'}' (trim_space text) before after e in
        let parts = (split_ands false (tail before)).0 ∷ (split_ands false (tail before)).1 in
        rw (opened, e)
          (and_then-Gives (λ cs. Unit) (Left (chars text)) (parse_parts parts)
            (λ conds. parsed (conds, trim_space after)) (parse_parts-Ends parts)
            (λ cs h. omega (arith, shorter, trim_space-le text, trim_space-le after)))
  ]
]

-- What is left after one turn is shorter.
abbrev Turns : ℕ → Option (Parse (Policy × String)) → Type 0
Turns n none = Unit
Turns n (some r) = Gives (Left n) r

parse_block-Turns : (p : Policy) (text : String) → Turns (chars text) (parse_block p text)
unfolding parse_block
parse_block-Turns p text = elim (Bool-cases (text == ";" || text == "")) [
  | inl end ↦ rw (end, parse_block) tt
  | inr more ↦ elim (Bool-cases (has_prefix text "when")) [
    | inl w ↦ rw (more, parse_block) (rw w (turn "when" (set_when p) (λ x h. h)))
    | inr no_when ↦ elim (Bool-cases (has_prefix text "unless")) [
      | inl u ↦ rw (more, parse_block) (rw (no_when, u) (turn "unless" (set_unless p) (λ x h. h)))
      | inr other ↦ rw (more, parse_block) (rw (no_when, other) tt)
    ]
  ]
]
  where
    turn :
        (word : String) (set : List Condition × String → Parse (Policy × String))
        → ((x : List Condition × String) → Left (chars text) x → Gives (Left (chars text)) (set x))
        → Gives (Left (chars text)) (and_then (parse_condition_block (trim_prefix text word)) set)
    turn word set keeps =
        and_then-Gives (Left (chars (trim_prefix text word))) (Left (chars text)) _ set
          (block-Left (trim_prefix text word))
          (λ x h. keeps x (omega (arith, h, trim_prefix-le text word)))

parse_blocks-Ends :
    (fuel : ℕ) (p : Policy) (text : String) → chars text < fuel → Ends (parse_blocks fuel p text)
unfolding parse_blocks
parse_blocks-Ends zero p text h = absurd (omega (arith, h))
parse_blocks-Ends (suc fuel) p text h = elim (Option-cases (parse_block p (trim_space text))) [
  | inl end ↦ rw (end, parse_blocks) tt
  | inr (next, e) ↦
      rw (e, parse_blocks)
        (and_then-Gives (Left (chars (trim_space text))) (λ q. Unit) next
          (λ (q, rest). parse_blocks fuel q rest)
          (subst (Turns (chars (trim_space text))) e (parse_block-Turns p (trim_space text)))
          (λ (q, rest) less.
            parse_blocks-Ends fuel q rest (omega (arith, h, less, trim_space-le text))))
]

parse_rest-Ends : (id : String) (effect : Effect) (text : String) → Ends (parse_rest id effect text)
unfolding parse_rest
parse_rest-Ends id effect text = elim (Bool-cases (has_prefix text "(")) [
  | inr bare ↦ rw bare tt
  | inl opened ↦ elim (Option-cases (cut_at b')' text)) [
    | inl open_ ↦ rw (opened, open_) tt
    | inr ((before, after), e) ↦ elim (Option-cases (three (tail before))) [
      | inl few ↦ rw (opened, e) (rw few tt)
      | inr (targets, t) ↦
          rw (opened, e)
            (rw t (
              parse_blocks-Ends (suc (chars (trim_space after))) (policy_of id effect targets)
                (trim_space after) (omega arith)))
    ]
  ]
]

policy-Ends : (id text : String) → Ends (parse_policy id text)
unfolding parse_policy
policy-Ends id text = elim (Option-cases (parse_effect (trim_space text))) [
  | inl neither ↦ rw (neither, parse_policy) tt
  | inr ((effect, rest), e) ↦ rw (e, parse_policy) (parse_rest-Ends id effect (trim_space rest))
]

-- The parser of policies ends on every text, with a policy or an error: the fuel is always enough.
pub parse_policy-ends :
    (id text : String)
    → ((p : Policy) × (parse_policy id text ≡ parsed p))
      ⊎ ((e : Failure) × (parse_policy id text ≡ failed e))
parse_policy-ends id text = finished (parse_policy id text) (policy-Ends id text)
  where
    finished :
        (r : Parse Policy)
        → Ends r
        → ((p : Policy) × (r ≡ parsed p)) ⊎ ((e : Failure) × (r ≡ failed e))
    finished (parsed p) h = inl (p, refl)
    finished (failed e) h = inr (e, refl)
    finished unfinished h = elim h [ ]
