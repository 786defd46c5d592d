-- ===== src/Cedar/Engine.antt =====
-- internal/cedar/engine.go: policies, requests, and `Evaluate` with all that it calls. An effect is
-- any text; a map that lacks a key reads as "".
use Prim.Native.Char.{code}
use oauth4os.Common.{
  String, Bool, true, false, not, ◌&&◌, ◌||◌, Option, none, some, List, [], ◌∷◌, ◌++◌, ◌==◌, ◌!=◌,
  nat_eq, if◌then◌else◌,
}
use oauth4os.Common.Dict
use oauth4os.Common.Dict.{Dict, or_else}
use oauth4os.Common.Text.{has_prefix, has_suffix, contains_text, split, trim_space}

abbrev pub Effect : Type 0
Effect = String

abbrev pub permit : Effect
permit = "permit"

abbrev pub forbid : Effect
forbid = "forbid"

pub record Match : Type 0 where
  pub any : Bool
  pub equals : String
  pub pattern_text : String

pub record Condition : Type 0 where
  pub field : String
  pub op : String
  pub value : String

pub record Policy : Type 0 where
  pub id : String
  pub effect : Effect
  pub principal : Match
  pub action : Match
  pub resource : Match
  pub when : List Condition
  pub unless : List Condition

pub record Request : Type 0 where
  pub principal : Dict String
  pub action : String
  pub resource : Dict String

pub record Decision : Type 0 where
  pub allowed : Bool
  pub reason : String
  pub policy : String

pub record Engine : Type 0 where
  pub policies : List Policy

abbrev pub new_engine : List Policy → Engine
new_engine policies = record { policies = policies }

-- the parts of the pattern between stars: only one star is supported
abbrev pub match_parts : List String → String → Bool
match_parts [] value = false
match_parts (p ∷ []) value = false
match_parts (p ∷ q ∷ []) value = has_prefix value p && has_suffix value q
match_parts (p ∷ q ∷ r ∷ rest) value = false

unfoldable pub glob_match : String → String → Bool
glob_match pat value =
    if pat == "*"
    then true
    else if not (contains_text pat "*")
    then pat == value
    else match_parts (split b'*' pat) value

unfoldable pub matches_target : Match → String → Bool
matches_target m value =
    if m.any
    then true
    else if m.equals != ""
    then m.equals == value
    else if m.pattern_text != ""
    then glob_match m.pattern_text value
    else false

abbrev pub read : Dict String → String → String
read d k = or_else (Dict.get d k) ""

abbrev pub unqualified : String → Request → String
unqualified field req =
    if field == "action"
    then req.action
    else or_else (Dict.get req.principal field) (read req.resource field)

-- strings.SplitN(field, ".", 2): the text before the first dot, and all after it
unfoldable pub cut_dot : String → Option (String × String)
cut_dot String.[] = none
cut_dot (String.◌∷◌ c s) =
    let rest = cut_dot s in
    if nat_eq (code c) b'.'
    then some ("", s)
    else elim rest [ none ↦ none | some (a, b) ↦ some (String.◌∷◌ c a, b) ]

unfoldable pub resolve_field : String → Request → String
unfolding cut_dot
resolve_field field req = elim (cut_dot field) [
  | none ↦ unqualified field req
  | some (head, rest) ↦
      if head == "principal"
      then read req.principal rest
      else if head == "resource"
      then read req.resource rest
      else if head == "action"
      then req.action
      else ""
]

-- the loop of the operator `in`
unfoldable pub in_items : List String → String → Bool
in_items [] val = false
in_items (item ∷ items) val = trim_space item == val || in_items items val

-- The loop over the conditions, with the early returns of the source: `in` ends it either way.
unfoldable pub eval_conditions : List Condition → Request → Bool
eval_conditions [] req = true
eval_conditions (c ∷ cs) req =
    let rest = eval_conditions cs req in
    let val = resolve_field c.field req in
    if c.op == "=="
    then (if val != c.value then false else rest)
    else if c.op == "!="
    then (if val == c.value then false else rest)
    else if c.op == "contains"
    then (if not (contains_text val c.value) then false else rest)
    else if c.op == "in"
    then in_items (split b',' c.value) val
    else false

abbrev pub excepted : List Condition → Request → Bool
excepted [] req = false
excepted (c ∷ cs) req = eval_conditions (c ∷ cs) req

-- the tests that `continue` past a policy
unfoldable pub applies : Policy → Request → Bool
applies p req =
    matches_target p.principal (read req.principal "sub")
    && (matches_target p.action req.action
        && (matches_target p.resource (read req.resource "index")
            && (eval_conditions p.when req && not (excepted p.unless req))))

abbrev pub denied : String → String → Decision
denied reason policy = record { allowed = false; reason = reason; policy = policy }

abbrev pub conclude : Option Policy → Decision
conclude none = denied "no matching permit policy" ""
conclude (some p) = record { allowed = true; reason = "permitted"; policy = p.id }

abbrev pub first_permit : Option Policy → Policy → Option Policy
first_permit none p = some p
first_permit (some q) p = some q

-- the loop over the policies, with the permit that was found first
unfoldable pub evaluate_from : List Policy → Option Policy → Request → Decision
evaluate_from [] found req = conclude found
evaluate_from (p ∷ ps) found req = elim (applies p req) [
  | false ↦ evaluate_from ps found req
  | true ↦
      if p.effect == forbid
      then denied "denied by policy" p.id
      else evaluate_from ps (first_permit found p) req
]

unfoldable pub evaluate : Engine → Request → Decision
unfolding evaluate_from
evaluate e req = evaluate_from e.policies none req

unfoldable pub add_policy : Engine → Policy → Engine
add_policy e p = record { policies = e.policies ++ p ∷ [] }

-- the loop of RemovePolicy: the first policy with the id goes
unfoldable pub remove_first : String → List Policy → List Policy × Bool
remove_first id [] = ([], false)
remove_first id (p ∷ ps) =
    let (rest, found) = remove_first id ps in if p.id == id then (ps, true) else (p ∷ rest, found)

unfoldable pub remove_policy : Engine → String → Engine × Bool
unfolding remove_first
remove_policy e id =
    let (policies, found) = remove_first id e.policies in (record { policies = policies }, found)
