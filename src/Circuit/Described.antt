-- ===== src/Circuit/Described.antt =====
-- internal/circuit/breaker.go: the breaker against a description of its answers by the calls so far.
use oauth4os.Common.{
  ℕ, suc, ◌-◌, ◌≡◌, refl, Bool, true, false, not, ◌&&◌, ◌||◌, List, [], ◌∷◌, leb, ltb, arith,
  if◌then◌else◌,
}
use oauth4os.Circuit.Breaker.{
  State, closed, open_state, half_open, Breaker, new, allow, record_status,
}
use oauth4os.Circuit.Histories.{Call, allows, records, step}

-- The breaker after calls, the last one first.
abbrev pub after : ℕ → ℕ → List Call → Breaker
after threshold cooldown [] = new threshold cooldown
after threshold cooldown (c ∷ cs) = step (after threshold cooldown cs) c

-- how many answers of 5xx came in a row, up to now
unfoldable pub in_a_row : List Call → ℕ
in_a_row [] = 0
in_a_row (allows now ∷ cs) = in_a_row cs
in_a_row (records status now ∷ cs) =
    let rest = in_a_row cs in if leb 500 status then suc rest else 0

-- when the last answer came
unfoldable pub last_answer : List Call → ℕ
last_answer [] = 0
last_answer (allows now ∷ cs) = last_answer cs
last_answer (records status now ∷ cs) = now

-- at least one failure, and as many in a row as the threshold
unfoldable pub failing : ℕ → List Call → Bool
failing threshold cs = ltb 0 (in_a_row cs) && leb threshold (in_a_row cs)

-- whether a request asked since the last answer, when the cooldown was over
unfoldable pub probed : ℕ → List Call → Bool
probed cooldown [] = false
probed cooldown (allows now ∷ cs) = leb cooldown (now - last_answer cs) || probed cooldown cs
probed cooldown (records status now ∷ cs) = false

abbrev pub expected : Bool → Bool → State
expected false probe = closed
expected true false = open_state
expected true true = half_open

-- What the breaker holds, by the calls so far.
record Described (threshold cooldown : ℕ) (cs : List Call) (b : Breaker) : Type 0 where
  state : b.state ≡ expected (failing threshold cs) (probed cooldown cs)
  failures : b.failures ≡ in_a_row cs
  opened : failing threshold cs ≡ true → b.opened_at ≡ last_answer cs
  threshold_is : b.threshold ≡ threshold
  cooldown_is : b.cooldown ≡ cooldown

new-Described : (threshold cooldown : ℕ) → Described threshold cooldown [] (new threshold cooldown)
unfolding new failing in_a_row
new-Described threshold cooldown = record {
  state = refl;
  failures = refl;
  opened = λ h. absurd (ground arith);
  threshold_is = refl;
  cooldown_is = refl;
}

allow-Described :
    (threshold cooldown : ℕ) (cs : List Call) (b : Breaker) (now : ℕ)
    → Described threshold cooldown cs b
    → Described threshold cooldown (allows now ∷ cs) (allow b now).0
unfolding allow failing in_a_row probed last_answer
allow-Described threshold cooldown cs b now d = record {
  state = ground (arith, d.state, d.opened, d.cooldown_is);
  failures = ground (arith, d.failures);
  opened = λ h. ground (arith, d.opened h);
  threshold_is = ground (arith, d.threshold_is);
  cooldown_is = ground (arith, d.cooldown_is);
}

record-Described :
    (threshold cooldown : ℕ) (cs : List Call) (b : Breaker) (status now : ℕ)
    → Described threshold cooldown cs b
    → Described threshold cooldown (records status now ∷ cs) (record_status b status now)
unfolding record_status failing in_a_row probed last_answer
record-Described threshold cooldown cs b status now d = record {
  state = ground (arith, d.state, d.failures, d.threshold_is);
  failures = ground (arith, d.failures);
  opened = λ h. ground (arith, d.failures, d.threshold_is);
  threshold_is = ground (arith, d.threshold_is);
  cooldown_is = ground (arith, d.cooldown_is);
}

after-Described :
    (threshold cooldown : ℕ) (cs : List Call)
    → Described threshold cooldown cs (after threshold cooldown cs)
unfolding step
after-Described threshold cooldown [] = new-Described threshold cooldown
after-Described threshold cooldown (allows now ∷ cs) =
    allow-Described threshold cooldown cs _ now (after-Described threshold cooldown cs)
after-Described threshold cooldown (records status now ∷ cs) =
    record-Described threshold cooldown cs _ status now (after-Described threshold cooldown cs)

-- After any calls on a new breaker, these calls determine its state and its next answer. It is closed,
-- and lets a request through, while the answers of 5xx in a row are none or fewer than the threshold.
-- Otherwise it is open, and refuses, until a request asks when the cooldown since the last answer is
-- over: that one it lets through, and then it is half-open and refuses until the next answer.
pub allow-described :
    (threshold cooldown : ℕ) (cs : List Call) (now : ℕ)
    → let b = after threshold cooldown cs in
      (b.state ≡ expected (failing threshold cs) (probed cooldown cs))
      × ((allow b now).1 ≡ (
          not (failing threshold cs)
          || (not (probed cooldown cs) && leb cooldown (now - last_answer cs))))
unfolding allow
allow-described threshold cooldown cs now =
    let d = after-Described threshold cooldown cs in
    (d.state, ground (arith, d.state, d.opened, d.cooldown_is))
