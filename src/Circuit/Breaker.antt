-- ===== src/Circuit/Breaker.antt =====
-- internal/circuit/breaker.go: the breaker's state and its methods. Times and durations are numbers
-- of nanoseconds; the clock does not run backwards, so `time.Since` is a truncated difference, and
-- a cooldown that is over leaves 0. A count of failures does not reach 2^63.
use oauth4os.Common.{ℕ, ◌+◌, ◌-◌, ◌/◌, Bool, true, false, leb, nat_eq, if◌then◌else◌}

pub data State : Type 0 where
  closed open_state half_open : State

pub record Breaker : Type 0 where
  pub state : State
  pub failures : ℕ
  pub threshold : ℕ
  pub cooldown : ℕ
  pub opened_at : ℕ

unfoldable pub new : ℕ → ℕ → Breaker
new threshold cooldown = record {
  state = closed;
  failures = 0;
  threshold = threshold;
  cooldown = cooldown;
  opened_at = 0;
}

-- the switch of Allow
abbrev pub allow_in : State → Breaker → ℕ → Breaker × Bool
allow_in closed b now = (b, true)
allow_in open_state b now =
    if leb b.cooldown (now - b.opened_at)
    then (record b { state = half_open }, true)
    else (b, false)
allow_in half_open b now = (b, false)

unfoldable pub allow : Breaker → ℕ → Breaker × Bool
allow b now = allow_in b.state b now

abbrev pub trip : Breaker → ℕ → Breaker
trip b now = record b { state = open_state; opened_at = now }

unfoldable pub record_status : Breaker → ℕ → ℕ → Breaker
record_status b status now =
    let counted = record b { failures = b.failures + 1 } in
    if leb 500 status
    then (if leb b.threshold (b.failures + 1) then trip counted now else counted)
    else record b { failures = 0; state = closed }

unfoldable pub state_of : Breaker → State
state_of b = b.state

abbrev pub retry_in : State → Breaker → ℕ → ℕ
retry_in open_state b now =
    let remaining = b.cooldown - (now - b.opened_at) in
    if nat_eq remaining 0 then 1 else remaining / 1000000000 + 1
retry_in closed b now = 0
retry_in half_open b now = 0

unfoldable pub retry_after : Breaker → ℕ → ℕ
retry_after b now = retry_in b.state b now

-- What the middleware answers: the upstream's status, or 503 with the seconds to wait.
pub data Answer : Type 0 where
  upstream : ℕ → Answer
  unavailable : ℕ → Answer

-- One request through the middleware: `started` and `ended` are the readings of the clock, and the
-- status is the one that the next handler writes.
unfoldable pub serve : Breaker → ℕ → ℕ → ℕ → Breaker × Answer
unfolding allow record_status retry_after
serve b started ended status =
    let (b', ok) = allow b started in
    if ok
    then (record_status b' status ended, upstream status)
    else (b', unavailable (retry_after b' started))
