-- ===== src/Common/Dict.antt =====
-- Go's `map[string]V` as an association list. Clients use the laws: a lookup after each operation.
-- The order of a `range` loop, which Go leaves open, is the order of the list.
pub mod Count
pub mod Find
pub mod Size
use Prim.Native.Nat.{ℕ}
use Prim.Native.String.{String}
use mathlib.Core.Path.{◌≡◌, refl}
use mathlib.Core.Bool.{Bool, false}
use mathlib.Core.Option.{Option, none, some}
use mathlib.Core.List.{List, [], ◌∷◌}
use native.Mathlib.Omega.{arith}
use text.Mathlib.Text.{◌==◌}
use text.Mathlib.TextEquality.{eq_iff}
use mathlib.Core.Path.{subst}
use mathlib.Core.Logic.{inl, inr}
use oauth4os.Common.Tests.{if◌then◌else◌, Bool-cases, eq_of_some-eq}
use oauth4os.Common.Lists.{length, All}

-- What an entry is after a pass that drops those that the test accepts.
abbrev pub unless {ℓ} : {V : Type ℓ} → (V → Bool) → Option V → Option V
unless p none = none
unless p (some v) = if p v then none else some v

abbrev pub map_option {ℓ κ} : {A : Type ℓ} {B : Type κ} → (A → B) → Option A → Option B
map_option f none = none
map_option f (some a) = some (f a)

-- v := d[k] where a missing entry reads as a default
abbrev pub or_else {ℓ} : {A : Type ℓ} → Option A → A → A
or_else none d = d
or_else (some a) d = a

pub record Dict {ℓ} (V : Type ℓ) : Type ℓ where
  pub range : List (String × V)

module _ {ℓ} {V : Type ℓ} where
  lookup : String → List (String × V) → Option V
  lookup key [] = none
  lookup key ((i, v) ∷ r) = if i == key then some v else lookup key r

  insert : String → V → List (String × V) → List (String × V)
  insert key v [] = (key, v) ∷ []
  insert key v ((i, w) ∷ r) = if i == key then (key, v) ∷ r else (i, w) ∷ insert key v r

  without : String → List (String × V) → List (String × V)
  without key [] = []
  without key ((i, v) ∷ r) = let rest = without key r in if i == key then rest else (i, v) ∷ rest

  update : String → (V → V) → List (String × V) → List (String × V)
  update key f [] = []
  update key f ((i, v) ∷ r) = if i == key then (i, f v) ∷ r else (i, v) ∷ update key f r

  update_all : (V → V) → List (String × V) → List (String × V)
  update_all f [] = []
  update_all f ((i, v) ∷ r) = (i, f v) ∷ update_all f r

  swept : (V → Bool) → List (String × V) → List (String × V)
  swept p [] = []
  swept p ((i, v) ∷ r) = let rest = swept p r in if p v then without i rest else (i, v) ∷ rest

  unfoldable pub empty : Dict V
  empty = record { range = [] }

  -- v, ok := d[k]
  unfoldable pub get : Dict V → String → Option V
  unfolding lookup
  get dict key = lookup key dict.range

  -- d[k] = v
  unfoldable pub put : Dict V → String → V → Dict V
  unfolding insert
  put dict key v = record { range = insert key v dict.range }

  -- delete(d, k)
  unfoldable pub remove : Dict V → String → Dict V
  unfolding without
  remove dict key = record { range = without key dict.range }

  -- if v, ok := d[k]; ok { a write through the pointer v }
  unfoldable pub adjust : Dict V → String → (V → V) → Dict V
  unfolding update
  adjust dict key f = record { range = update key f dict.range }

  -- for _, v := range d { a write through the pointer v }
  unfoldable pub adjust_all : Dict V → (V → V) → Dict V
  unfolding update_all
  adjust_all dict f = record { range = update_all f dict.range }

  -- for k, v := range d { if p(v) { delete(d, k) } }
  unfoldable pub sweep : Dict V → (V → Bool) → Dict V
  unfolding swept without
  sweep dict p = record { range = swept p dict.range }

  -- len(d)
  abbrev pub size : Dict V → ℕ
  size dict = length dict.range

  lookup-without :
      (key other : String) (r : List (String × V))
      → lookup other (without key r) ≡ (if key == other then none else lookup other r)
  unfolding lookup without
  lookup-without key other [] = ground arith
  lookup-without key other ((i, v) ∷ r) =
      ground (arith, lookup-without key other r, eq_iff i key, eq_iff i other, eq_iff key other)

  lookup-insert :
      (key other : String) (v : V) (r : List (String × V))
      → lookup other (insert key v r) ≡ (if key == other then some v else lookup other r)
  unfolding lookup insert
  lookup-insert key other v [] = refl
  lookup-insert key other v ((i, w) ∷ r) =
      ground (arith, lookup-insert key other v r, eq_iff i key, eq_iff i other, eq_iff key other)

  lookup-update :
      (key other : String) (f : V → V) (r : List (String × V))
      → lookup other (update key f r)
        ≡ (if key == other then map_option f (lookup other r) else lookup other r)
  unfolding lookup update
  lookup-update key other f [] = ground arith
  lookup-update key other f ((i, v) ∷ r) =
      ground (arith, lookup-update key other f r, eq_iff i key, eq_iff i other, eq_iff key other)

  lookup-update_all :
      (other : String) (f : V → V) (r : List (String × V))
      → lookup other (update_all f r) ≡ map_option f (lookup other r)
  unfolding lookup update_all
  lookup-update_all other f [] = refl
  lookup-update_all other f ((i, v) ∷ r) = ground (arith, lookup-update_all other f r)

  lookup-swept :
      (other : String) (p : V → Bool) (r : List (String × V))
      → lookup other (swept p r) ≡ unless p (lookup other r)
  unfolding lookup swept
  lookup-swept other p [] = refl
  lookup-swept other p ((i, v) ∷ r) =
      ground (arith, lookup-swept other p r, lookup-without i other (swept p r), eq_iff i other)

  lookup-All :
      (P : V → Type 0) (key : String) (v : V) (r : List (String × V))
      → All (λ e. P e.1) r
      → lookup key r ≡ some v
      → P v
  unfolding lookup
  lookup-All P key v [] h e = cc
  lookup-All P key v ((i, w) ∷ r) h e = elim (Bool-cases (i == key)) [
    | inl hit ↦ subst P (eq_of_some-eq w v (ground arith)) h.0
    | inr miss ↦ lookup-All P key v r h.1 (ground arith)
  ]

  -- What holds of all that a range visits holds of each entry.
  pub get-All :
      (P : V → Type 0) (dict : Dict V) (key : String) (v : V)
      → All (λ e. P e.1) dict.range
      → get dict key ≡ some v
      → P v
  unfolding get
  get-All P dict key v h e = lookup-All P key v dict.range h e

  pub get-range :
      (key other : String) (v : V) (r : List (String × V))
      → get (record { range = (key, v) ∷ r }) other
        ≡ (if key == other then some v else get (record { range = r }) other)
  unfolding get lookup
  get-range key other v r = refl

  -- A key that no entry has is not in the map.
  pub get-range_none :
      (other : String) (r : List (String × V))
      → All (λ e. (e.0 == other) ≡ false) r
      → get (record { range = r }) other ≡ none
  get-range_none other [] h = unfold get lookup in refl
  get-range_none other ((key, v) ∷ r) h = rw get-range (rw h.0 (get-range_none other r h.1))

  pub get-empty : (other : String) → get empty other ≡ none
  unfolding get empty
  get-empty other = refl

  pub get-put :
      (dict : Dict V) (key other : String) (v : V)
      → get (put dict key v) other ≡ (if key == other then some v else get dict other)
  unfolding get put
  get-put dict key other v = lookup-insert key other v dict.range

  pub get-remove :
      (dict : Dict V) (key other : String)
      → get (remove dict key) other ≡ (if key == other then none else get dict other)
  unfolding get remove
  get-remove dict key other = lookup-without key other dict.range

  pub get-adjust :
      (dict : Dict V) (key other : String) (f : V → V)
      → get (adjust dict key f) other
        ≡ (if key == other then map_option f (get dict other) else get dict other)
  unfolding get adjust
  get-adjust dict key other f = lookup-update key other f dict.range

  pub get-adjust-none :
      (dict : Dict V) (key other : String) (f : V → V)
      → get dict other ≡ none
      → get (adjust dict key f) other ≡ none
  get-adjust-none dict key other f h = rw get-adjust (ground arith)

  pub get-adjust_all :
      (dict : Dict V) (other : String) (f : V → V)
      → get (adjust_all dict f) other ≡ map_option f (get dict other)
  unfolding get adjust_all
  get-adjust_all dict other f = lookup-update_all other f dict.range

  pub get-sweep :
      (dict : Dict V) (other : String) (p : V → Bool)
      → get (sweep dict p) other ≡ unless p (get dict other)
  unfolding get sweep
  get-sweep dict other p = lookup-swept other p dict.range

pub ruleset dict_laws = (get-empty, get-put, get-remove, get-adjust, get-adjust_all, get-sweep)
