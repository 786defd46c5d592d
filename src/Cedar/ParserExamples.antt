-- ===== src/Cedar/ParserExamples.antt =====
-- internal/cedar/engine.go: the theorems on the parser at two policies.
use oauth4os.Common.{inl, String, ◌≡◌, ◌⊎◌, refl, true, false, []}
use oauth4os.Common.Text.{trim_space, trim_left, trim_right, is_space, contains_text}
use oauth4os.Common.Text.Cut.{cut_at}
use oauth4os.Cedar.Engine.{Match, Policy, permit}
use oauth4os.Cedar.Parser.{Failure, parsed, failed, parse_match, parse_policy}
use oauth4os.Cedar.Termination.{parse_policy-ends}
use oauth4os.Cedar.Printing.{show_policy, parse_policy-show_policy}

abbrev anyone : Match
anyone = record { any = true; equals = ""; pattern_text = "" }

abbrev only : Match
only = record { any = false; equals = "GET"; pattern_text = "" }

abbrev logs : Match
logs = record { any = false; equals = ""; pattern_text = "logs-*" }

abbrev policy : Policy
policy = record {
  id = "p1";
  effect = permit;
  principal = anyone;
  action = only;
  resource = logs;
  when = [];
  unless = [];
}

abbrev text : String
text = "permit(*, GET, *) when { team == \"data\" } unless { action == \"DELETE\" };"

parse_policy-ends_example :
    ((p : Policy) × (parse_policy "p2" text ≡ parsed p))
    ⊎ ((e : Failure) × (parse_policy "p2" text ≡ failed e))
parse_policy-ends_example = parse_policy-ends "p2" text

parse_policy-show_policy_example : parse_policy "p1" (show_policy policy) ≡ parsed policy
unfolding trim_space trim_left trim_right is_space cut_at parse_match contains_text
parse_policy-show_policy_example =
    parse_policy-show_policy "p1" permit anyone only logs (inl refl) ((refl, refl, refl), refl)
      ((refl, refl, refl), refl) ((refl, refl, refl), refl)
