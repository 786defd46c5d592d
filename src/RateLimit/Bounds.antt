-- ===== src/RateLimit/Bounds.antt =====
-- internal/ratelimit/limiter.go: how many requests a client gets through, and the limit in force.
use oauth4os.Common.{ℕ, ◌+◌, ◌≤◌, String, Bool, true, false, List, [], ◌∷◌, ◌==◌, if◌then◌else◌}
use oauth4os.Common.Dict
use oauth4os.Common.Dict.{Dict}
use oauth4os.RateLimit.Limiter.{Limiter, allow}

abbrev pub one_if : Bool → ℕ
one_if true = 1
one_if false = 0

-- A request: the client, the scopes, and the time.
pub record Call : Type 0 where
  pub client : String
  pub scopes : List String
  pub now : ℕ

abbrev pub InOrder : ℕ → List Call → ℕ → Type 0
InOrder from [] end = from ≤ end
InOrder from (c ∷ cs) end = (from ≤ c.now) × InOrder c.now cs end

abbrev one_for : String → Call → Bool → ℕ
one_for client c ok = if c.client == client then one_if ok else 0

-- How many requests of the client are let through, among those of all clients.
unfoldable pub let_through : String → Limiter → List Call → ℕ
let_through client l [] = 0
let_through client l (c ∷ cs) =
    let (l', ok) = allow l c.client c.scopes c.now in one_for client c ok + let_through client l' cs
