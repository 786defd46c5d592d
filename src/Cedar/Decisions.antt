-- ===== src/Cedar/Decisions.antt =====
-- internal/cedar/engine.go: `Evaluate` against the rule that any forbid wins.
use mathlib.Core.List.{Perm, Permᴰ}
use mathlib.Core.Path.{ap₂}
use mathlib.Core.Logic.{∥∥₁_elim}
use mathlib.Core.Bool.{Bool-set}
use oauth4os.Common.{
  ◌≡◌, ◌≢◌, ◌!=◌, eq_iff, ◌↔◌, refl, ap, ◌∙◌, inl, inr, Bool, true, false, not, ◌&&◌, ◌||◌, Option,
  none, some, List, [], ◌∷◌, All, Any, Bool-cases, arith,
}
use oauth4os.Cedar.Engine.{
  Effect, forbid, Policy, Request, Engine, applies, first_permit, evaluate_from, evaluate,
  new_engine,
}

-- A policy that applies to the request and forbids it, or permits it: every effect but "forbid"
-- permits.
abbrev pub Permits : Request → Policy → Type 0
Permits req p = (applies p req ≡ true) × (p.effect ≢ forbid)

abbrev pub Forbids : Request → Policy → Type 0
Forbids req p = (applies p req ≡ true) × (p.effect ≡ forbid)

abbrev is_some : Option Policy → Bool
is_some none = false
is_some (some p) = true

abbrev is_permit : Effect → Bool
is_permit effect = effect != forbid

some_permits : List Policy → Request → Bool
some_permits [] req = false
some_permits (p ∷ ps) req = (applies p req && is_permit p.effect) || some_permits ps req

some_forbids : List Policy → Request → Bool
some_forbids [] req = false
some_forbids (p ∷ ps) req = (applies p req && not (is_permit p.effect)) || some_forbids ps req

evaluate_from-allowed :
    (ps : List Policy) (found : Option Policy) (req : Request)
    → (evaluate_from ps found req).allowed
      ≡ (not (some_forbids ps req) && (is_some found || some_permits ps req))
unfolding evaluate_from some_permits some_forbids
evaluate_from-allowed [] found req = ground arith
evaluate_from-allowed (p ∷ ps) found req =
    ground (
      arith,
      evaluate_from-allowed ps found req,
      evaluate_from-allowed ps (first_permit found p) req,
    )

Any-some_permits :
    (ps : List Policy) (req : Request) → some_permits ps req ≡ true → Any (Permits req) ps
unfolding some_permits
Any-some_permits [] req h = absurd (ground arith)
Any-some_permits (p ∷ ps) req h = elim (Bool-cases (applies p req && is_permit p.effect)) [
  | inl e ↦ inl (ground (arith, eq_iff p.effect forbid))
  | inr e ↦ inr (Any-some_permits ps req (ground arith))
]

some_permits-Any :
    (ps : List Policy) (req : Request) → Any (Permits req) ps → some_permits ps req ≡ true
unfolding some_permits
some_permits-Any [] req h = absurd h
some_permits-Any (p ∷ ps) req (inl h) = ground (arith, eq_iff p.effect forbid)
some_permits-Any (p ∷ ps) req (inr h) = ground (arith, some_permits-Any ps req h)

All-some_forbids :
    (ps : List Policy) (req : Request) → some_forbids ps req ≡ false → All (λ p. ¬ Forbids req p) ps
unfolding some_forbids
All-some_forbids [] req h = tt
All-some_forbids (p ∷ ps) req h =
    ((λ f. ground (arith, eq_iff p.effect forbid)), All-some_forbids ps req (ground arith))

some_forbids-All :
    (ps : List Policy) (req : Request) → All (λ p. ¬ Forbids req p) ps → some_forbids ps req ≡ false
unfolding some_forbids
some_forbids-All [] req h = refl
some_forbids-All (p ∷ ps) req h = elim (Bool-cases (applies p req && not (is_permit p.effect))) [
  | inl e ↦ absurd (h.0 (ground arith, ground (arith, eq_iff p.effect forbid)))
  | inr e ↦ rw e (some_forbids-All ps req h.1)
]

-- A request is allowed exactly if some policy that applies has an effect other than "forbid", be it
-- "permit" or any other text, and none that applies has the effect "forbid". So without a policy that
-- applies it is denied, and one "forbid" outweighs all others.
pub evaluate-allowed_iff :
    (e : Engine) (req : Request)
    → ((evaluate e req).allowed ≡ true)
      ↔ (Any (Permits req) e.policies × All (λ p. ¬ Forbids req p) e.policies)
unfolding evaluate
evaluate-allowed_iff e req = (
  (λ h.
      let b = evaluate_from-allowed e.policies none req in
      (
        Any-some_permits e.policies req (ground arith),
        All-some_forbids e.policies req (ground arith),
      )),
  λ h. ground (
    arith,
    evaluate_from-allowed e.policies none req,
    some_permits-Any e.policies req h.0,
    some_forbids-All e.policies req h.1,
  ),
)

allows_now : Request → Policy → Bool
allows_now req p = applies p req && is_permit p.effect

denies_now : Request → Policy → Bool
denies_now req p = applies p req && not (is_permit p.effect)

some_permits-perm :
    {ps qs : List Policy} (req : Request) → Permᴰ ps qs → some_permits ps req ≡ some_permits qs req
unfolding some_permits allows_now
some_permits-perm req Permᴰ.nil = refl
some_permits-perm req (Permᴰ.cons x p) = ap₂ ◌||◌ (ap (allows_now req) x) (some_permits-perm req p)
some_permits-perm req (Permᴰ.swap x y) =
    ground (arith, ap (allows_now req) x, ap (allows_now req) y)
some_permits-perm req (Permᴰ.trans p q) = some_permits-perm req p ∙ some_permits-perm req q

some_forbids-perm :
    {ps qs : List Policy} (req : Request) → Permᴰ ps qs → some_forbids ps req ≡ some_forbids qs req
unfolding some_forbids denies_now
some_forbids-perm req Permᴰ.nil = refl
some_forbids-perm req (Permᴰ.cons x p) = ap₂ ◌||◌ (ap (denies_now req) x) (some_forbids-perm req p)
some_forbids-perm req (Permᴰ.swap x y) =
    ground (arith, ap (denies_now req) x, ap (denies_now req) y)
some_forbids-perm req (Permᴰ.trans p q) = some_forbids-perm req p ∙ some_forbids-perm req q

allowed-perm :
    (ps qs : List Policy) (req : Request)
    → Permᴰ ps qs
    → (evaluate (new_engine ps) req).allowed ≡ (evaluate (new_engine qs) req).allowed
unfolding evaluate
allowed-perm ps qs req p = ground (
  arith,
  evaluate_from-allowed ps none req,
  evaluate_from-allowed qs none req,
  some_permits-perm req p,
  some_forbids-perm req p,
)

-- The order of the policies does not matter for what is allowed.
pub evaluate-perm :
    (ps qs : List Policy) (req : Request)
    → Perm ps qs
    → (evaluate (new_engine ps) req).allowed ≡ (evaluate (new_engine qs) req).allowed
evaluate-perm ps qs req p = ∥∥₁_elim p (Bool-set _ _) (allowed-perm ps qs req)
