-- ===== src/Cedar/Examples.antt =====
-- The theorems on policies at the requests of an analyst on two indices.
use oauth4os.Common.{String, ◌≡◌, refl, inl, true, false, List, [], ◌∷◌, All, arith, ne_of_test}
use oauth4os.Common.Dict
use oauth4os.Common.Text.{contains_text, split, has_prefix, has_suffix, trim_space}
use oauth4os.Common.Text.Affixes.{IsPlain}
use oauth4os.Cedar.Engine.{
  Match, Policy, Request, Condition, permit, forbid, new_engine, evaluate, applies, matches_target,
  glob_match, eval_conditions, resolve_field, in_items, cut_dot,
}
use oauth4os.Cedar.Tenant.{TenantEngine, new_tenant_engine, add_tenant}
use oauth4os.Cedar.Decisions.{Forbids, evaluate-allowed_iff}
use oauth4os.Cedar.Globs.{starred, glob_match_iff}

abbrev anyone : Match
anyone = record { any = true; equals = ""; pattern_text = "" }

abbrev only : String → Match
only s = record { any = false; equals = s; pattern_text = "" }

abbrev logs : Match
logs = record { any = false; equals = ""; pattern_text = "logs-*" }

abbrev team_is : Condition
team_is = record { field = "principal.team"; op = "=="; value = "data" }

abbrev team_in : Condition
team_in = record { field = "team"; op = "in"; value = "data, ops" }

abbrev never : Condition
never = record { field = "action"; op = "=="; value = "nothing" }

abbrev reads_logs : Policy
reads_logs = record {
  id = "p1";
  effect = permit;
  principal = anyone;
  action = only "read";
  resource = logs;
  when = team_is ∷ team_in ∷ [];
  unless = [];
}

abbrev no_secrets : Policy
no_secrets = record {
  id = "p2";
  effect = forbid;
  principal = anyone;
  action = anyone;
  resource = only "logs-secret";
  when = [];
  unless = [];
}

abbrev ask : String → Request
ask index = record {
  principal = Dict.put (Dict.put Dict.empty "sub" "ann") "team" "data";
  action = "read";
  resource = Dict.put Dict.empty "index" index;
}

abbrev rules : List Policy
rules = reads_logs ∷ no_secrets ∷ []

applies_now :
    (applies reads_logs (ask "logs-web") ≡ true) × (applies no_secrets (ask "logs-web") ≡ false)
unfolding applies matches_target glob_match eval_conditions resolve_field in_items Dict.get Dict.put
    Dict.empty split contains_text has_prefix has_suffix trim_space cut_dot
applies_now = (refl, refl)

no_forbid : All (λ p. ¬ Forbids (ask "logs-web") p) rules
no_forbid =
    ((λ f. ne_of_test "permit" "forbid" refl f.1), ((λ f. ground (arith, f.0, applies_now.1)), tt))

evaluate-allowed_iff_example : (evaluate (new_engine rules) (ask "logs-web")).allowed ≡ true
evaluate-allowed_iff_example =
    (evaluate-allowed_iff (new_engine rules) (ask "logs-web")).1
      (inl (applies_now.0, ne_of_test "permit" "forbid" refl), no_forbid)

IsPlain-logs : IsPlain "logs-"
IsPlain-logs = unfold contains_text in refl

IsPlain-end : IsPlain "-web"
IsPlain-end = unfold contains_text in refl

glob_match_iff_example : glob_match (starred "logs-" "-web") "logs-eu-web" ≡ true
glob_match_iff_example =
    (glob_match_iff "logs-" "-web" "logs-eu-web" IsPlain-logs IsPlain-end).1
      (("eu-web", refl), ("logs-eu", refl))

abbrev tenants : TenantEngine
tenants = add_tenant (new_tenant_engine (no_secrets ∷ [])) "issuer-a" rules
