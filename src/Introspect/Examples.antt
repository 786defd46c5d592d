-- ===== src/Introspect/Examples.antt =====
-- internal/introspect/handler.go: the theorems at one token that is revoked.
use oauth4os.Common.{ℕ, ◌-◌, ◌<◌, String, ◌≡◌, true, ltb, [], ◌∷◌, arith, if◌then◌else◌}
use oauth4os.Introspect.Handler.{Response, inactive, cached_introspect}
use oauth4os.Introspect.Stale.{after, cached_introspect-recent}

-- active up to the time 4
abbrev inner : String → ℕ → Response
inner token now = if ltb now 5 then record inactive { active = true } else inactive

cached_introspect-recent_example :
    (t : ℕ) × (8 - t < 10)
    × ((cached_introspect inner (after inner 10 (("a", 3) ∷ [])) "a" 8).1 ≡ inner "a" t)
cached_introspect-recent_example =
    cached_introspect-recent inner 10 (("a", 3) ∷ []) "a" 8 (omega arith)
