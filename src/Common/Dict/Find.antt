-- ===== src/Common/Dict/Find.antt =====
-- A range loop that stops at the first entry that passes a test.
use Prim.Native.String.{String}
use mathlib.Core.Path.{◌≡◌, subst}
use mathlib.Core.Logic.{◌≢◌, inl, inr}
use mathlib.Core.Bool.{Bool, true, false}
use mathlib.Core.Option.{Option, none, some}
use mathlib.Core.List.{List, [], ◌∷◌}
use native.Mathlib.Omega.{arith}
use text.Mathlib.TextEquality.{eq_iff}
use oauth4os.Common.Tests.{if◌then◌else◌, Bool-cases, eq_of_some-eq}
use oauth4os.Common.Dict.{Dict, get, get-range, get-range_none}

abbrev pub passes {ℓ} : {V : Type ℓ} → (V → Bool) → Option V → Bool
passes p none = false
passes p (some v) = p v

module _ {ℓ} {V : Type ℓ} where
  find_in : (V → Bool) → Dict V → List (String × V) → Option String
  find_in p dict [] = none
  find_in p dict ((i, v) ∷ r) =
      let rest = find_in p dict r in if passes p (get dict i) then some i else rest

  -- for k, v := range d { if p(v) { return k } }
  unfoldable pub find_key : Dict V → (V → Bool) → Option String
  unfolding find_in
  find_key dict p = find_in p dict dict.range

  find_in-passes :
      (p : V → Bool) (dict : Dict V) (r : List (String × V)) (i : String)
      → find_in p dict r ≡ some i
      → passes p (get dict i) ≡ true
  unfolding find_in
  find_in-passes p dict [] i h = absurd (cc h)
  find_in-passes p dict ((j, v) ∷ r) i h = elim (Bool-cases (passes p (get dict j))) [
    | inl hit ↦ subst (λ x. passes p (get dict x) ≡ true) (eq_of_some-eq j i (ground arith)) hit
    | inr miss ↦ find_in-passes p dict r i (ground arith)
  ]

  find_in-none :
      (p : V → Bool) (dict : Dict V) (r : List (String × V)) (j : String) (v : V)
      → get (record { range = r }) j ≡ some v
      → passes p (get dict j) ≡ true
      → find_in p dict r ≢ none
  unfolding find_in
  find_in-none p dict [] j v there fits h = absurd (cc (there, get-range_none {V = V} j [] tt))
  find_in-none p dict ((i, w) ∷ r) j v there fits h = elim (Bool-cases (passes p (get dict i))) [
    | inl hit ↦ absurd (ground arith)
    | inr miss ↦
        find_in-none p dict r j v (ground (arith, get-range i j w r, eq_iff i j)) fits
          (ground arith)
  ]

  -- What is found passes the test.
  pub find_key-passes :
      (dict : Dict V) (p : V → Bool) (i : String)
      → find_key dict p ≡ some i
      → passes p (get dict i) ≡ true
  unfolding find_key
  find_key-passes dict p i h = find_in-passes p dict dict.range i h

  -- Something is found where an entry passes the test.
  pub find_key-none :
      (dict : Dict V) (p : V → Bool) (j : String) (v : V)
      → get dict j ≡ some v
      → p v ≡ true
      → find_key dict p ≢ none
  unfolding find_key
  find_key-none dict p j v there fits = find_in-none p dict dict.range j v there (ground arith)
