-- ===== src/Session/Manager.antt =====
-- internal/session/manager.go: the state and the methods. Times and durations are numbers of
-- nanoseconds. A limit of the configuration is not negative, and 0 means that there is none.
use oauth4os.Common.{
  ℕ, ◌+◌, String, Bool, true, false, ◌&&◌, ◌||◌, Option, none, some, List, [], ◌∷◌, ◌==◌, ltb, leb,
  if◌then◌else◌,
}
use oauth4os.Common.Dict
use oauth4os.Common.Dict.{Dict}
use oauth4os.Common.Dict.Count.{count_where}

pub record Session : Type 0 where
  pub id : String
  pub client_id : String
  pub token_id : String
  pub ip : String
  pub created_at : ℕ
  pub last_seen : ℕ

pub record Manager : Type 0 where
  pub sessions : Dict Session
  pub limits : Dict ℕ

-- `none` is a nil map of limits.
unfoldable pub new : Option (Dict ℕ) → Manager
new none = record { sessions = Dict.empty; limits = Dict.put Dict.empty "*" 100 }
new (some limits) = record { sessions = Dict.empty; limits = limits }

abbrev pub is_of : String → Session → Bool
is_of client_id s = s.client_id == client_id

unfoldable pub count_locked : Manager → String → ℕ
count_locked m client_id = count_where m.sessions (is_of client_id)

unfoldable pub count : Manager → String → ℕ
unfolding count_locked
count m client_id = count_locked m client_id

unfoldable pub get_limit : Manager → String → ℕ
get_limit m client_id = elim (Dict.get m.limits client_id) [
  | some l ↦ l
  | none ↦ elim (Dict.get m.limits "*") [ some l ↦ l | none ↦ 0 ]
]

abbrev pub at_limit : Manager → String → Bool
at_limit m client_id =
    ltb 0 (get_limit m client_id) && leb (get_limit m client_id) (count_locked m client_id)

unfoldable pub create : Manager → String → String → String → String → ℕ → Manager × Bool
create m session_id client_id token_id ip now = if at_limit m client_id then (m, false) else (
  record m {
    sessions = Dict.put m.sessions session_id (record {
      id = session_id;
      client_id = client_id;
      token_id = token_id;
      ip = ip;
      created_at = now;
      last_seen = now;
    });
  },
  true,
)

abbrev pub seen : ℕ → Session → Session
seen now s = record s { last_seen = now }

unfoldable pub touch : Manager → String → ℕ → Manager
touch m session_id now = record m { sessions = Dict.adjust m.sessions session_id (seen now) }

unfoldable pub remove : Manager → String → Manager
remove m session_id = record m { sessions = Dict.remove m.sessions session_id }

-- the counter of the loop: the sessions that it visits and deletes
unfoldable pub force_logout : Manager → String → Manager × ℕ
force_logout m client_id = (
  record m { sessions = Dict.sweep m.sessions (is_of client_id) },
  count_where m.sessions (is_of client_id),
)

unfoldable pub list_sessions : String → List (String × Session) → List Session
list_sessions client_id [] = []
list_sessions client_id ((k, s) ∷ rest) =
    let more = list_sessions client_id rest in
    if client_id == "" || s.client_id == client_id then s ∷ more else more

unfoldable pub list : Manager → String → List Session
unfolding list_sessions
list m client_id = list_sessions client_id m.sessions.range

-- `s.LastSeen.Before(now - maxIdle)`
abbrev pub is_idle : ℕ → ℕ → Session → Bool
is_idle max_idle now s = ltb (s.last_seen + max_idle) now

unfoldable pub cleanup : Manager → ℕ → ℕ → Manager × ℕ
cleanup m max_idle now = (
  record m { sessions = Dict.sweep m.sessions (is_idle max_idle now) },
  count_where m.sessions (is_idle max_idle now),
)
