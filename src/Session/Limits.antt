-- ===== src/Session/Limits.antt =====
-- internal/session/manager.go: no client has more sessions than its limit.
use mathlib.Core.Path.{subst}
use oauth4os.Common.{
  ℕ, ◌+◌, ◌≤◌, ◌<◌, String, ◌≡◌, ◌⊎◌, ◌↔◌, refl, inl, inr, true, false, Option, none, some, List,
  [], ◌∷◌, ◌==◌, eq_iff, Bool-cases, arith, if◌then◌else◌,
}
use oauth4os.Common.Dict
use oauth4os.Common.Dict.{Dict, unless, get-put, get-adjust, get-sweep}
use oauth4os.Common.Dict.Count.{
  count_where-put, count_where-remove, count_where-adjust, count_where-sweep,
  count_where-sweep_self, count_where-empty,
}
use oauth4os.Session.Manager.{
  Session, Manager, new, count_locked, count, get_limit, at_limit, create, seen, touch, remove,
  is_of, force_logout, is_idle, cleanup,
}

-- The calls that change the sessions.
pub data Call : Type 0 where
  creates : String → String → String → String → ℕ → Call
  touches : String → ℕ → Call
  removes : String → Call
  logs_out : String → Call
  cleans : ℕ → ℕ → Call

unfoldable pub step : Manager → Call → Manager
step m (creates session_id client_id token_id ip now) =
    (create m session_id client_id token_id ip now).0
step m (touches session_id now) = touch m session_id now
step m (removes session_id) = remove m session_id
step m (logs_out client_id) = (force_logout m client_id).0
step m (cleans max_idle now) = (cleanup m max_idle now).0

unfoldable pub run : Manager → List Call → Manager
run m [] = m
run m (c ∷ cs) = run (step m c) cs

-- A client that has a limit has no more sessions than that.
abbrev pub Within : Manager → Type 0
Within m = (c : String) → 0 < get_limit m c → count m c ≤ get_limit m c

limit_eq : (m n : Manager) (c : String) → n.limits ≡ m.limits → get_limit n c ≡ get_limit m c
unfolding get_limit
limit_eq m n c e = rw e

-- Whatever leaves the limits as they are and adds no session of a client keeps within them.
Within-fewer :
    (m n : Manager)
    → n.limits ≡ m.limits
    → ((c : String) → count n c ≤ count m c)
    → Within m
    → Within n
Within-fewer m n e fewer w c pos = omega (arith, limit_eq m n c e, fewer c, w c)

create_limits :
    (m : Manager) (id client token ip : String) (now : ℕ)
    → (create m id client token ip now).0.limits ≡ m.limits
unfolding create
create_limits m id client token ip now = ground arith

-- A session more for the client that created it, which then was below its limit, or for nobody.
create-count :
    (m : Manager) (id client token ip : String) (now : ℕ) (c : String)
    → let n = (create m id client token ip now).0 in
      (count n c ≤ count m c)
      ⊎ ((client ≡ c) × (at_limit m client ≡ false) × (count n c ≤ count m c + 1))
unfolding create count count_locked
create-count m id client token ip now c =
    let s : Session = record {
      id = id;
      client_id = client;
      token_id = token;
      ip = ip;
      created_at = now;
      last_seen = now;
    } in
    ground (arith, count_where-put m.sessions (is_of c) id s, eq_iff client c)

room_left :
    (m : Manager) (c : String)
    → at_limit m c ≡ false
    → 0 < get_limit m c
    → count m c < get_limit m c
unfolding count
room_left m c h pos = ground arith

create-Within :
    (m : Manager) (id client token ip : String) (now : ℕ)
    → Within m
    → Within (create m id client token ip now).0
create-Within m id client token ip now w c pos =
    let same =
      limit_eq m (create m id client token ip now).0 c (create_limits m id client token ip now) in
    elim (create-count m id client token ip now c) [
      | inl fewer ↦ omega (arith, same, fewer, w c)
      | inr (mine, room, more) ↦
          omega (arith, same, more, room_left m c (subst (λ x. at_limit m x ≡ false) mine room))
    ]

step-Within : (m : Manager) (c : Call) → Within m → Within (step m c)
unfolding step touch remove force_logout cleanup count count_locked
step-Within m (creates id client token ip now) w = create-Within m id client token ip now w
step-Within m (touches id now) w =
    Within-fewer m _ refl
      (λ c. omega (arith, count_where-adjust m.sessions (is_of c) id (seen now) (λ s. refl))) w
step-Within m (removes id) w =
    Within-fewer m _ refl (λ c. count_where-remove m.sessions (is_of c) id) w
step-Within m (logs_out client) w =
    Within-fewer m _ refl (λ c. count_where-sweep m.sessions (is_of c) (is_of client)) w
step-Within m (cleans max_idle now) w =
    Within-fewer m _ refl (λ c. count_where-sweep m.sessions (is_of c) (is_idle max_idle now)) w

run-Within : (m : Manager) (cs : List Call) → Within m → Within (run m cs)
unfolding run
run-Within m [] w = w
run-Within m (c ∷ cs) w = run-Within (step m c) cs (step-Within m c w)

new-Within : (limits : Option (Dict ℕ)) → Within (new limits)
unfolding new count count_locked
new-Within none c pos = omega (arith, count_where-empty (is_of c))
new-Within (some limits) c pos = omega (arith, count_where-empty (is_of c))

-- After any calls, no client that has a limit, of its own or by the default, has more sessions than
-- that.
pub run-new-Within :
    (limits : Option (Dict ℕ)) (cs : List Call) (client : String)
    → 0 < get_limit (run (new limits) cs) client
    → count (run (new limits) cs) client ≤ get_limit (run (new limits) cs) client
run-new-Within limits cs = run-Within (new limits) cs (new-Within limits)

-- Force logout leaves the client no session, leaves the sessions of the others, and tells how many
-- the client had.
pub force_logout_lem :
    (m : Manager) (client id : String)
    → let (n, removed) = force_logout m client in
      (count n client ≡ 0)
      × (removed ≡ count m client)
      × (Dict.get n.sessions id ≡ unless (is_of client) (Dict.get m.sessions id))
unfolding force_logout count count_locked
force_logout_lem m client id =
    (count_where-sweep_self m.sessions (is_of client), refl, get-sweep m.sessions id (is_of client))

-- Creating a session says yes exactly if the client is below its limit or has none; then the session
-- is stored under its id with both times now, and every other id reads as before. Where it says no,
-- nothing changes.
pub create_lem :
    (m : Manager) (id client token ip : String) (now : ℕ) (k : String)
    → let (n, ok) = create m id client token ip now in
      ((ok ≡ true) ↔ ((get_limit m client ≡ 0) ⊎ (count m client < get_limit m client)))
      × ((ok ≡ false)
          ⊎ (Dict.get n.sessions k ≡ (
              if id == k
              then some (record {
                id = id;
                client_id = client;
                token_id = token;
                ip = ip;
                created_at = now;
                last_seen = now;
              })
              else Dict.get m.sessions k)))
      × ((ok ≡ true) ⊎ (n ≡ m))
unfolding create count
create_lem m id client token ip now k = elim (Bool-cases (at_limit m client)) [
  | inl full ↦ (((λ e. ground arith), λ e. ground arith), inl (rw full), inr (rw full))
  | inr room ↦ (
    ((λ e. ground arith), λ e. ground arith),
    inr (rw room (get-put m.sessions id k _)),
    inl (rw room),
  )
]
