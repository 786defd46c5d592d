-- ===== src/Cedar/Parser.antt =====
-- internal/cedar/engine.go: ParsePolicy and what it calls. The texts of the errors are not modelled.
use Prim.Native.Nat.{suc, zero}
use Prim.Native.Char.{code}
use oauth4os.Common.{
  ℕ, String, Bool, true, false, not, ◌&&◌, ◌||◌, Option, none, some, List, [], ◌∷◌, ◌==◌, nat_eq,
  if◌then◌else◌,
}
use oauth4os.Common.Text.{has_prefix, contains_text, trim_space, trim_left, trim_right}
use oauth4os.Common.Text.Cut.{chars, drop_as, trim_prefix, cut_at}
use oauth4os.Cedar.Engine.{Effect, permit, forbid, Match, Condition, Policy}

pub data Failure : Type 0 where
  no_effect no_open no_close three_targets no_block open_block bad_condition : Failure

-- A value, an error, or no result with the fuel that was given.
pub data Parse (A : Type 0) : Type 0 where
  parsed : A → Parse A
  failed : Failure → Parse A
  unfinished : Parse A

-- `if err != nil { return err }`
abbrev pub and_then : {A B : Type 0} → Parse A → (A → Parse B) → Parse B
and_then (failed e) next = failed e
and_then unfinished next = unfinished
and_then (parsed a) next = next a

unfoldable pub parse_match : String → Match
parse_match s =
    if s == "*"
    then record { any = true; equals = ""; pattern_text = "" }
    else if contains_text s "*"
    then record { any = false; equals = ""; pattern_text = s }
    else record { any = false; equals = s; pattern_text = "" }

-- s[:strings.Index(s, op)] and the text after the occurrence
unfoldable pub cut_text : String → String → Option (String × String)
cut_text op String.[] = if op == "" then some ("", "") else none
cut_text op (String.◌∷◌ c s) =
    let rest = cut_text op s in
    if has_prefix (String.◌∷◌ c s) op
    then some ("", drop_as (String.◌∷◌ c s) op)
    else elim rest [ none ↦ none | some (a, b) ↦ some (String.◌∷◌ c a, b) ]

abbrev pub is_quote : ℕ → Bool
is_quote c = nat_eq c b'"'

-- strings.Trim(s, "\"")
abbrev pub unquote : String → String
unquote s = trim_right is_quote (trim_left is_quote s)

abbrev pub operators : List String
operators = "!=" ∷ "==" ∷ " contains " ∷ " in " ∷ []

-- the loop over the operators
unfoldable pub parse_with : List String → String → Parse Condition
unfolding cut_text
parse_with [] s = failed bad_condition
parse_with (op ∷ ops) s =
    let rest = parse_with ops s in
    elim (cut_text op s) [
      | none ↦ rest
      | some (before, after) ↦ parsed (record {
        field = trim_space before;
        op = trim_space op;
        value = unquote (trim_space after);
      })
    ]

unfoldable pub parse_condition : String → Parse Condition
unfolding parse_with
parse_condition s = parse_with operators s

-- The part of a text up to the first "&&", and the parts after it. The flag is set between the two
-- characters of a separator.
unfoldable pub split_ands : Bool → String → String × List String
split_ands skip String.[] = ("", [])
split_ands skip (String.◌∷◌ c s) =
    let sep = not skip && (nat_eq (code c) b'&' && has_prefix s "&") in
    let (part, parts) = split_ands sep s in
    if skip then (part, parts) else if sep then ("", part ∷ parts) else (String.◌∷◌ c part, parts)

-- the loop over the parts of a block
unfoldable pub parse_parts : List String → Parse (List Condition)
unfolding parse_condition
parse_parts [] = parsed []
parse_parts (part ∷ parts) =
    let rest = parse_parts parts in
    if trim_space part == ""
    then rest
    else and_then (parse_condition (trim_space part)) (λ c. and_then rest (λ cs. parsed (c ∷ cs)))

-- text[1:]
abbrev pub tail : String → String
tail String.[] = ""
tail (String.◌∷◌ c s) = s

unfoldable pub parse_condition_block : String → Parse (List Condition × String)
unfolding split_ands parse_parts
parse_condition_block text0 =
    let text = trim_space text0 in
    if not (has_prefix text "{") then failed no_block else elim (cut_at b'}' text) [
      | none ↦ failed open_block
      | some (before, after) ↦
          let (part, parts) = split_ands false (tail before) in
          and_then (parse_parts (part ∷ parts)) (λ conds. parsed (conds, trim_space after))
    ]

-- what a block sets, and the text after it
abbrev pub set_when : Policy → List Condition × String → Parse (Policy × String)
set_when p (conds, rest) = parsed (record p { when = conds }, rest)

abbrev pub set_unless : Policy → List Condition × String → Parse (Policy × String)
set_unless p (conds, rest) = parsed (record p { unless = conds }, rest)

-- One turn of the loop on a trimmed text: the policy and the text that is left, where it goes on.
unfoldable pub parse_block : Policy → String → Option (Parse (Policy × String))
unfolding parse_condition_block
parse_block p text =
    if text == ";" || text == ""
    then none
    else if has_prefix text "when"
    then some (and_then (parse_condition_block (trim_prefix text "when")) (set_when p))
    else if has_prefix text "unless"
    then some (and_then (parse_condition_block (trim_prefix text "unless")) (set_unless p))
    else none

-- the loop over the blocks
unfoldable pub parse_blocks : ℕ → Policy → String → Parse Policy
unfolding parse_block
parse_blocks zero p text = unfinished
parse_blocks (suc fuel) p text = elim (parse_block p (trim_space text)) [
  | none ↦ parsed p
  | some next ↦ and_then next (λ (q, rest). parse_blocks fuel q rest)
]

-- strings.SplitN(s, ",", 3), where it has three parts
abbrev pub three : String → Option (String × String × String)
three s = elim (cut_at b',' s) [
  | none ↦ none
  | some (a, rest) ↦ elim (cut_at b',' rest) [ none ↦ none | some (b, c) ↦ some (a, b, c) ]
]

abbrev pub policy_of : String → Effect → String × String × String → Policy
policy_of id effect (a, b, c) = record {
  id = id;
  effect = effect;
  principal = parse_match (trim_space a);
  action = parse_match (trim_space b);
  resource = parse_match (trim_space c);
  when = [];
  unless = [];
}

-- the effect, and the text after it
unfoldable pub parse_effect : String → Option (Effect × String)
parse_effect text =
    if has_prefix text "permit"
    then some (permit, trim_prefix text "permit")
    else if has_prefix text "forbid"
    then some (forbid, trim_prefix text "forbid")
    else none

-- the part after the effect
unfoldable pub parse_rest : String → Effect → String → Parse Policy
unfolding parse_blocks
parse_rest id effect text =
    if not (has_prefix text "(") then failed no_open else elim (cut_at b')' text) [
      | none ↦ failed no_close
      | some (before, after) ↦ elim (three (tail before)) [
        | none ↦ failed three_targets
        | some targets ↦
            parse_blocks (suc (chars (trim_space after))) (policy_of id effect targets)
              (trim_space after)
      ]
    ]

unfoldable pub parse_policy : String → String → Parse Policy
unfolding parse_effect parse_rest
parse_policy id text = elim (parse_effect (trim_space text)) [
  | none ↦ failed no_effect
  | some (effect, rest) ↦ parse_rest id effect (trim_space rest)
]
