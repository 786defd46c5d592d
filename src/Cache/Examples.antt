-- ===== src/Cache/Examples.antt =====
-- internal/cache/cache.go: the theorems at a cache for one response.
use Prim.Native.Nat.{max}
use oauth4os.Common.{◌≤◌, List, [], ◌∷◌}
use oauth4os.Common.Dict
use oauth4os.Common.Dict.{Dict, size}
use oauth4os.Cache.Store.{new}
use oauth4os.Cache.Bounds.{Call, sets, reaps, run, run-new-bound}

abbrev calls : List Call
calls =
    sets "a" 200 Dict.empty "A" 0
    ∷ sets "" 200 Dict.empty "B" 3
    ∷ sets "c" 200 Dict.empty "C" 5
    ∷ reaps 99
    ∷ []

run-new-bound_example : size (run (new 10 2) calls).entries ≤ max 1 2
run-new-bound_example = run-new-bound 10 2 calls
