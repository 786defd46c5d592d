-- ===== src/LoadShed/Shedder.antt =====
-- internal/loadshed/shedder.go: the counters, the atomic operations on them that the middleware
-- makes, and their interleavings. The threshold is not negative, and no counter reaches 2^63.
use oauth4os.Common.{ℕ, ◌+◌, ◌-◌, ◌≤◌, ◌<◌, ◌≡◌, refl, Bool, true, false, arith, ltb, if◌then◌else◌}

pub record Shedder : Type 0 where
  pub active : ℕ
  pub threshold : ℕ
  pub rejected : ℕ

unfoldable pub new : ℕ → Shedder
new max_concurrent = record { active = 0; threshold = max_concurrent; rejected = 0 }

-- `current := s.active.Add(1)` and the test of it: whether the request is served
unfoldable pub enter : Shedder → Shedder × Bool
enter s =
    let current = s.active + 1 in
    (record s { active = current }, if ltb s.threshold current then false else true)

-- `s.active.Add(-1)`
unfoldable pub leave : Shedder → Shedder
leave s = record s { active = s.active - 1 }

-- `s.rejected.Add(1)`
unfoldable pub count_rejected : Shedder → Shedder
count_rejected s = record s { rejected = s.rejected + 1 }

unfoldable pub stats : Shedder → ℕ × ℕ
stats s = (s.active, s.rejected)

-- The shedder and the requests in the middle of the middleware: those that are served, those that
-- were refused and did not leave yet, and those that left and were not counted yet.
pub record System : Type 0 where
  pub shedder : Shedder
  pub serving : ℕ
  pub bouncing : ℕ
  pub uncounted : ℕ

abbrev pub idle : ℕ → System
idle max_concurrent = record {
  shedder = new max_concurrent;
  serving = 0;
  bouncing = 0;
  uncounted = 0;
}

-- One atomic operation of some request.
pub data Step : System → System → Type 0 where
  serve :
      (y : System)
      → (enter y.shedder).1 ≡ true
      → Step y (record y { shedder = (enter y.shedder).0; serving = y.serving + 1 })
  refuse :
      (y : System)
      → (enter y.shedder).1 ≡ false
      → Step y (record y { shedder = (enter y.shedder).0; bouncing = y.bouncing + 1 })
  bounce :
      (y : System)
      → 0 < y.bouncing
      → Step y (record y {
        shedder = leave y.shedder;
        bouncing = y.bouncing - 1;
        uncounted = y.uncounted + 1;
      })
  count :
      (y : System)
      → 0 < y.uncounted
      → Step y (record y { shedder = count_rejected y.shedder; uncounted = y.uncounted - 1 })
  finish :
      (y : System)
      → 0 < y.serving
      → Step y (record y { shedder = leave y.shedder; serving = y.serving - 1 })

pub data Reach (max_concurrent : ℕ) : System → Type 0 where
  start : Reach max_concurrent (idle max_concurrent)
  next : {y z : System} → Reach max_concurrent y → Step y z → Reach max_concurrent z

-- The counter is the number of the requests between their two operations on it.
pub record Inv (max_concurrent : ℕ) (y : System) : Type 0 where
  pub bound : y.shedder.threshold ≡ max_concurrent
  pub exact : y.shedder.active ≡ y.serving + y.bouncing
  pub served : y.serving ≤ max_concurrent

step-Inv : (n : ℕ) {y z : System} → Step y z → Inv n y → Inv n z
unfolding enter leave count_rejected
step-Inv n (serve y e) v = record {
  bound = v.bound;
  exact = omega (arith, v.exact);
  served = ground (arith, v.exact, v.bound);
}
step-Inv n (refuse y e) v = record {
  bound = v.bound;
  exact = omega (arith, v.exact);
  served = v.served;
}
step-Inv n (bounce y e) v = record {
  bound = v.bound;
  exact = omega (arith, v.exact);
  served = v.served;
}
step-Inv n (count y e) v = record { bound = v.bound; exact = v.exact; served = v.served }
step-Inv n (finish y e) v = record {
  bound = v.bound;
  exact = omega (arith, v.exact);
  served = omega (arith, v.served);
}

Reach-Inv : (n : ℕ) {y : System} → Reach n y → Inv n y
unfolding new
Reach-Inv n start = record { bound = refl; exact = refl; served = omega arith }
Reach-Inv n (next r s) = step-Inv n s (Reach-Inv n r)

-- In every interleaving, no more requests are served at a time than the threshold, and the active
-- count that is reported exceeds the number served by just the requests that are being refused.
pub served_within :
    (max_concurrent : ℕ) (y : System)
    → Reach max_concurrent y
    → (y.serving ≤ max_concurrent) × ((stats y.shedder).0 ≡ y.serving + y.bouncing)
unfolding stats
served_within n y r = let v = Reach-Inv n r in (v.served, v.exact)
