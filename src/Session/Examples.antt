-- ===== src/Session/Examples.antt =====
-- The theorems on sessions at a client with a limit of two.
use oauth4os.Common.{ℕ, ◌≤◌, Option, some, List, [], ◌∷◌, arith}
use oauth4os.Common.Dict
use oauth4os.Common.Dict.{Dict, unless}
use oauth4os.Common.Dict.Count.{count_where}
use oauth4os.Session.Manager.{new, create, count, count_locked, get_limit, touch}
use oauth4os.Session.Limits.{Call, creates, touches, run, step, run-new-Within}

abbrev limits : Option (Dict ℕ)
limits = some (Dict.put Dict.empty "app" 2)

abbrev logins : List Call
logins =
    creates "s1" "app" "t1" "10.0.0.1" 5
    ∷ creates "s2" "app" "t2" "10.0.0.1" 6
    ∷ creates "s3" "app" "t3" "10.0.0.1" 7
    ∷ touches "s1" 8
    ∷ []

run-new-Within_example :
    count (run (new limits) logins) "app" ≤ get_limit (run (new limits) logins) "app"
unfolding run step new create touch count_locked get_limit Dict.get Dict.put Dict.empty count_where
run-new-Within_example = run-new-Within limits logins "app" (omega arith)
