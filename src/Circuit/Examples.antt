-- ===== src/Circuit/Examples.antt =====
-- The theorems on the breaker at a small history.
use oauth4os.Common.{◌≡◌, refl, ◌-◌, not, ◌&&◌, ◌||◌, leb, List, [], ◌∷◌}
use oauth4os.Circuit.Breaker.{Breaker, open_state, new, allow, record_status}
use oauth4os.Circuit.Histories.{Call, allows, records, step}
use oauth4os.Circuit.Described.{
  after, in_a_row, last_answer, failing, probed, expected, allow-described,
}

-- the last call first
abbrev history : List Call
history = allows 5 ∷ records 500 4 ∷ allows 3 ∷ records 503 2 ∷ allows 1 ∷ []

abbrev opened : Breaker
opened = after 2 10 history

allow-described_example :
    (opened.state ≡ expected (failing 2 history) (probed 10 history))
    × ((allow opened 14).1 ≡ (
        not (failing 2 history) || (not (probed 10 history) && leb 10 (14 - last_answer history))))
allow-described_example = allow-described 2 10 history 14

opened_is_open : (opened.state ≡ open_state) × (opened.opened_at ≡ 4)
unfolding step allow record_status new
opened_is_open = (refl, refl)

row_of_history : in_a_row history ≡ 2
unfolding in_a_row
row_of_history = refl
