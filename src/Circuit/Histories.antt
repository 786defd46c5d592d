-- ===== src/Circuit/Histories.antt =====
-- internal/circuit/breaker.go: histories of requests.
use oauth4os.Common.{
  ℕ, suc, ◌+◌, ◌*◌, ◌≤◌, ◌≡◌, refl, true, List, [], ◌∷◌, All, arith, if◌then◌else◌,
}
use oauth4os.Circuit.Breaker.{open_state, half_open, Breaker, allow, record_status, retry_after}

-- The calls, in any interleaving of the requests.
pub data Call : Type 0 where
  allows : ℕ → Call
  records : ℕ → ℕ → Call

unfoldable pub step : Breaker → Call → Breaker
step b (allows now) = (allow b now).0
step b (records status now) = record_status b status now

unfoldable pub run : Breaker → List Call → Breaker
run b [] = b
run b (c ∷ cs) = run (step b c) cs

-- The answers of 5xx: a list of statuses with the times at which they are recorded.
abbrev pub failures_of : List (ℕ × ℕ) → List Call
failures_of [] = []
failures_of ((status, now) ∷ l) = records status now ∷ failures_of l

abbrev pub count : List (ℕ × ℕ) → ℕ
count [] = 0
count (x ∷ l) = suc (count l)

-- A breaker whose failures in a row, with the failures that come, reach the threshold is open
-- after them, and has counted them all.
pub failures_trip :
    (b : Breaker) (x : ℕ × ℕ) (l : List (ℕ × ℕ))
    → All (λ y. 500 ≤ y.0) (x ∷ l)
    → b.threshold ≤ b.failures + count (x ∷ l)
    → let after = run b (failures_of (x ∷ l)) in
      (after.state ≡ open_state) × (after.failures ≡ b.failures + count (x ∷ l))
unfolding run step record_status
failures_trip b (status, now) [] bad enough = ground (arith, bad.0)
failures_trip b (status, now) (y ∷ l) bad enough =
    let after = record_status b status now in ground (arith, bad.0, failures_trip after y l bad.1)

-- The answers of Allow at a list of times, with no response recorded in between.
unfoldable pub allowed : Breaker → List ℕ → ℕ
allowed b [] = 0
allowed b (t ∷ ts) =
    let (b', ok) = allow b t in let rest = allowed b' ts in if ok then suc rest else rest

half_open_refuses : (b : Breaker) (ts : List ℕ) → b.state ≡ half_open → allowed b ts ≡ 0
unfolding allowed allow
half_open_refuses b [] e = refl
half_open_refuses b (t ∷ ts) e = ground (arith, half_open_refuses b ts)

-- Until a response is recorded, a breaker that is open lets at most one request through, however
-- many ask and whenever they do.
pub one_probe : (b : Breaker) (ts : List ℕ) → b.state ≡ open_state → allowed b ts ≤ 1
unfolding allowed allow
one_probe b [] e = omega arith
one_probe b (t ∷ ts) e =
    ground (arith, one_probe b ts, half_open_refuses (record b { state = half_open }) ts refl)

-- The wait that an open breaker advises is enough: a request that comes that many seconds later is
-- let through.
pub allow-retry_after :
    (b : Breaker) (now : ℕ)
    → b.state ≡ open_state
    → b.opened_at ≤ now
    → (allow b (now + retry_after b now * 1000000000)).1 ≡ true
unfolding allow retry_after
allow-retry_after b now e h = ground arith
