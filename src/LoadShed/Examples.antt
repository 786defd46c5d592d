-- ===== src/LoadShed/Examples.antt =====
-- The bound on the requests served at a time, with one served and one being refused.
use oauth4os.Common.{◌≤◌, ◌≡◌, refl}
use oauth4os.LoadShed.Shedder.{
  System, serve, refuse, Reach, start, next, idle, new, enter, stats, served_within,
}

abbrev busy : System
busy = record (idle 1) { shedder = (enter (new 1)).0; serving = 1 }

abbrev crowded : System
crowded = record busy { shedder = (enter busy.shedder).0; bouncing = 1 }

crowded-Reach : Reach 1 crowded
unfolding enter new
crowded-Reach = next (next start (serve (idle 1) refl)) (refuse busy refl)

served_within_example : (crowded.serving ≤ 1) × ((stats crowded.shedder).0 ≡ 2)
served_within_example = served_within 1 crowded crowded-Reach
