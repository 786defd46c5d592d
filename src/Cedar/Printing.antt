-- ===== src/Cedar/Printing.antt =====
-- internal/cedar/engine.go: policies as texts, and what the parser makes of those.
use Prim.Native.String.{◌++◌}
use Prim.Native.Nat.{suc}
use text.Mathlib.TextLemmas.{nil-append, cons-append, append_assoc}
use oauth4os.Common.{
  String, ◌≡◌, ◌⊎◌, inl, inr, refl, sym, ap, ◌∙◌, true, false, some, [], ◌==◌, if◌then◌else◌,
}
use oauth4os.Common.Text.{has_prefix, trim_space, trim_left, trim_right, is_space}
use oauth4os.Common.Text.Affixes.{prefix-append}
use oauth4os.Common.Text.Cut.{chars, cut_at}
use oauth4os.Common.Text.Pieces.{
  trim_prefix-append, Without, cut_at-append, Without-append, trim_right-append,
}
use oauth4os.Cedar.Engine.{Effect, permit, forbid, Match, Policy}
use oauth4os.Cedar.Parser.{
  parsed, parse_match, parse_effect, parse_rest, parse_policy, parse_blocks, parse_block, three,
  tail,
}

-- An effect that has a text of its own.
abbrev pub Known : Effect → Type 0
Known effect = (effect ≡ permit) ⊎ (effect ≡ forbid)

abbrev pub show_match : Match → String
show_match m = if m.any then "*" else if m.pattern_text == "" then m.equals else m.pattern_text

-- Text that can stand as a target: no comma, no closing parenthesis, no space at an end.
abbrev pub Word : String → Type 0
Word s = (trim_space s ≡ s) × Without b',' s × Without b')' s

-- A match as the parser makes them: any value, a text without a star, or a pattern with one.
abbrev pub Plain : Match → Type 0
Plain m = Word (show_match m) × (parse_match (show_match m) ≡ m)

-- the three targets
abbrev pub targets : String → String → String → String
targets a b c = a ++ (", " ++ (b ++ (", " ++ c)))

abbrev pub show_policy : Policy → String
show_policy p =
    p.effect
    ++ (("(" ++ targets (show_match p.principal) (show_match p.action) (show_match p.resource))
        ++ ");")

trim_blank : (s : String) → trim_space (" " ++ s) ≡ trim_space s
unfolding trim_space trim_left is_space
trim_blank s = rw (cons-append, nil-append) refl

cut_comma : (a r : String) → Without b',' a → cut_at b',' (a ++ (", " ++ r)) ≡ some (a, " " ++ r)
cut_comma a r h = rw cons-append (cut_at-append b',' _ a (" " ++ r) refl h)

cut_blank :
    (s a r : String) → cut_at b',' s ≡ some (a, r) → cut_at b',' (" " ++ s) ≡ some (" " ++ a, r)
unfolding cut_at
cut_blank s a r h = rw (cons-append, nil-append) (rw h (rw (cons-append, nil-append) refl))

three_of :
    (a b c : String)
    → Without b',' a
    → Without b',' b
    → three (targets a b c) ≡ some (a, " " ++ b, " " ++ c)
three_of a b c ha hb =
    rw (cut_comma a (b ++ (", " ++ c)) ha, three)
      (rw (cut_blank (b ++ (", " ++ c)) b (" " ++ c) (cut_comma b c hb), three) refl)

targets-Without :
    (a b c : String)
    → Without b')' a
    → Without b')' b
    → Without b')' c
    → Without b')' ("(" ++ targets a b c)
targets-Without a b c ha hb hc = Without-append b')' "(" (targets a b c) (unfold cut_at in refl) (
    Without-append b')' a _ ha (
      Without-append b')' ", " _ (unfold cut_at in refl)
        (Without-append b')' b _ hb (Without-append b')' ", " c (unfold cut_at in refl) hc))))

-- a text that begins with no space and ends with ");" has nothing to trim
trim_closed :
    (s : String) → trim_left is_space (s ++ ");") ≡ s ++ ");" → trim_space (s ++ ");") ≡ s ++ ");"
unfolding trim_space
trim_closed s h = rw h (trim_right-append is_space s _ ";" (unfold trim_right is_space in refl))

parse_end : (p : Policy) → parse_blocks (suc (chars (trim_space ";"))) p (trim_space ";") ≡ parsed p
unfolding parse_blocks parse_block trim_space trim_left trim_right is_space
parse_end p = refl

parse_targets :
    (id : String) (effect : Effect) (a b c : String)
    → Word a
    → Word b
    → Word c
    → parse_rest id effect (("(" ++ targets a b c) ++ ");")
      ≡ parsed (record {
        id = id;
        effect = effect;
        principal = parse_match a;
        action = parse_match b;
        resource = parse_match c;
        when = [];
        unless = [];
      })
unfolding parse_rest
parse_targets id effect a b c (ta, ca, pa) (tb, cb, pb) (tc, cc', pc) =
    let text = ("(" ++ targets a b c) ++ ");" in
    let opened : has_prefix text "(" ≡ true =
      rw cons-append (rw cons-append (unfold has_prefix in refl)) in
    let closed : cut_at b')' text ≡ some ("(" ++ targets a b c, ";") =
      cut_at-append b')' _ ("(" ++ targets a b c) ";" refl (targets-Without a b c pa pb pc) in
    let inner : tail ("(" ++ targets a b c) ≡ targets a b c = rw (cons-append, nil-append) refl in
    let spaces : (trim_space a, trim_space (" " ++ b), trim_space (" " ++ c)) ≡ (a, b, c) =
      rw ta (rw (trim_blank b ∙ tb) (rw (trim_blank c ∙ tc) refl)) in
    rw (opened, closed)
      (rw (ap three inner ∙ three_of a b c ca cb)
        (parse_end _ ∙ ap (λ t. parsed (policy_with t)) spaces))
  where
    policy_with : String × String × String → Policy
    policy_with (x, y, z) = record {
      id = id;
      effect = effect;
      principal = parse_match x;
      action = parse_match y;
      resource = parse_match z;
      when = [];
      unless = [];
    }

effect_of :
    (effect : Effect) (r : String) → Known effect → parse_effect (effect ++ r) ≡ some (effect, r)
unfolding parse_effect
effect_of effect r (inl is) =
    rw is (rw (prefix-append "permit" r) (rw (trim_prefix-append "permit" r) refl))
effect_of effect r (inr is) =
    let other : has_prefix ("forbid" ++ r) "permit" ≡ false =
      rw cons-append (unfold has_prefix in refl) in
    rw is (rw other (rw (prefix-append "forbid" r) (rw (trim_prefix-append "forbid" r) refl)))

show_trim :
    (effect : Effect) (s : String)
    → Known effect
    → trim_space (effect ++ (s ++ ");")) ≡ effect ++ (s ++ ");")
show_trim effect s (inl is) = rw is (
    ap trim_space (sym (append_assoc "permit" s ");"))
    ∙ trim_closed ("permit" ++ s)
        (unfold trim_left is_space in rw cons-append (rw cons-append refl))
    ∙ append_assoc "permit" s ");")
show_trim effect s (inr is) = rw is (
    ap trim_space (sym (append_assoc "forbid" s ");"))
    ∙ trim_closed ("forbid" ++ s)
        (unfold trim_left is_space in rw cons-append (rw cons-append refl))
    ∙ append_assoc "forbid" s ");")

-- A policy without conditions is read back from its text, if its effect is "permit" or "forbid", and
-- its targets are as the parser makes them
-- and their texts have no comma, no closing parenthesis and no space at an end.
pub parse_policy-show_policy :
    (id : String) (effect : Effect) (principal action resource : Match)
    → Known effect
    → Plain principal
    → Plain action
    → Plain resource
    → let p : Policy = record {
      id = id;
      effect = effect;
      principal = principal;
      action = action;
      resource = resource;
      when = [];
      unless = [];
    } in
      parse_policy id (show_policy p) ≡ parsed p
unfolding parse_policy
parse_policy-show_policy id effect principal action resource known (wp, mp) (wa, ma) (wr, mr) =
    let inside = "(" ++ targets (show_match principal) (show_match action) (show_match resource) in
    let inner : trim_space (inside ++ ");") ≡ inside ++ ");" =
      trim_closed inside (unfold trim_left is_space in rw cons-append (rw cons-append refl)) in
    rw (show_trim effect inside known, parse_policy)
      (rw (effect_of effect (inside ++ ");") known)
        (rw inner (parse_targets id effect _ _ _ wp wa wr ∙ rw (mp, ma, mr) refl)))
