-- ===== src/Store/Examples.antt =====
-- internal/store: the theorems at two tenants in memory, and at a file for one entry.
use oauth4os.Common.{
  String, ◌≡◌, ◌⊎◌, refl, sym, ap, ◌∙◌, inl, inr, Bool, true, false, ◌&&◌, Option, none, some, List,
  [], ◌∷◌, ◌==◌, ◌!=◌, eq_iff, Bool-cases, eq_of_some-eq, arith, if◌then◌else◌, All, ne_of_test,
}
use oauth4os.Common.Dict
use oauth4os.Common.Dict.{Dict, get-put, get-empty, get-range, get-range_none, map_option}
use oauth4os.Store.Memory.{memory, memory-IsLawful, new_memory}
use oauth4os.Store.File.{Json, File, new_file, set}
use oauth4os.Store.MultiTenant.{Heap, new_multi_tenant, memory_factory}
use oauth4os.Store.Refinement.{
  Call, gets, sets, deletes, answers, run, run-refines, memory_factory-MakesNew,
}
use oauth4os.Store.Poison.{Write, set-durable, set-poisons, apply_all, key_of}
use oauth4os.Store.Poison as Poison

abbrev calls : List Call
calls =
    sets "a" "k" "1"
    ∷ sets "b" "k" "2"
    ∷ gets "a" "k"
    ∷ deletes "a" "k"
    ∷ gets "a" "k"
    ∷ gets "b" "k"
    ∷ []

abbrev no_objects : Heap memory
no_objects = record { next = 0; object = λ a. new_memory }

run-refines_example :
    run memory memory_factory new_multi_tenant no_objects calls
    ≡ answers (λ t k. Dict.get new_memory k) calls
run-refines_example =
    run-refines memory memory_factory (λ t k. Dict.get new_memory k) memory_factory-MakesNew
      memory-IsLawful no_objects calls

abbrev valid : String → Bool
valid v = v != "bad"

-- a format for maps with the one key "k"
abbrev marshal_range : List (String × String) → Option String
marshal_range [] = none
marshal_range ((k, v) ∷ []) = if k == "k" && valid v then some v else none
marshal_range ((k, v) ∷ (l, w) ∷ rest) = none

abbrev one_entry : Json
one_entry = record {
  marshal = λ d. marshal_range d.range;
  unmarshal = λ raw. Dict.put Dict.empty "k" raw;
}

reads_range :
    (r : List (String × String)) (raw j : String)
    → marshal_range r ≡ some raw
    → Dict.get (Dict.put Dict.empty "k" raw) j
      ≡ map_option (λ v. v) (Dict.get (record { range = r }) j)
reads_range [] raw j h = absurd (cc h)
reads_range ((k, v) ∷ (l, w) ∷ rest) raw j h = absurd (cc h)
reads_range ((k, v) ∷ []) raw j h = elim (Bool-cases (k == "k" && valid v)) [
  | inr other ↦ absurd (cc (rw other at h))
  | inl one ↦
      let is : v ≡ raw = eq_of_some-eq v raw (rw one at h) in
      let key : k ≡ "k" = (eq_iff k "k").0 (ground (arith, one)) in
      let left : Dict.get (Dict.put Dict.empty "k" raw) j ≡ (if "k" == j then some raw else none) =
        get-put Dict.empty "k" j raw
        ∙ ap (λ o. if "k" == j then some raw else o) (get-empty {V = String} j) in
      let right : Dict.get (record { range = (k, v) ∷ [] }) j
          ≡ (if "k" == j then some raw else none) =
        get-range k j v []
        ∙ ap (λ o. if k == j then some v else o) (get-range_none {V = String} j [] tt)
        ∙ ap (λ x. if x == j then some v else none) key
        ∙ ap (λ x. if "k" == j then some x else none) is in
      left ∙ sym (ap (map_option (λ x. x)) right ∙ unchanged (if "k" == j then some raw else none))
]
  where
    unchanged : (o : Option String) → map_option (λ x. x) o ≡ o
    unchanged none = refl
    unchanged (some x) = refl

rejects_range :
    (r : List (String × String)) (k v : String)
    → Dict.get (record { range = r }) k ≡ some v
    → valid v ≡ false
    → marshal_range r ≡ none
rejects_range [] k v there wrong = refl
rejects_range ((i, u) ∷ (l, w) ∷ rest) k v there wrong = refl
rejects_range ((i, u) ∷ []) k v there wrong = elim (Bool-cases (i == k)) [
  | inr miss ↦
      let nothing : Dict.get (record { range = (i, u) ∷ [] }) k ≡ none =
        rw get-range (rw miss (get-range_none {V = String} k [] tt)) in
      absurd (cc (there, nothing))
  | inl hit ↦
      let same : u ≡ v = eq_of_some-eq u v (sym (get-range i k u [] ∙ rw hit refl) ∙ there) in
      let bad : valid u ≡ false = ap valid same ∙ wrong in ground (arith, bad)
]

abbrev fresh : File
fresh = new_file one_entry none (false ∷ [])

set-durable_example :
    (((set one_entry fresh "k" "1").1 ≡ true)
      × ((j : String)
          → Dict.get (new_file one_entry (set one_entry fresh "k" "1").0.on_disk []).contents j
            ≡ map_option (λ v. v) (if "k" == j then some "1" else Dict.get fresh.contents j)))
    ⊎ (((set one_entry fresh "k" "1").1 ≡ false)
        × ((set one_entry fresh "k" "1").0.on_disk ≡ fresh.on_disk))
set-durable_example =
    set-durable one_entry (λ v. v) fresh "k" "1" [] (λ d raw j. reads_range d.range raw j)

abbrev writes : List Write
writes = Poison.sets "j" "2" ∷ Poison.deletes "l" ∷ []

set-poisons_example :
    let out = apply_all one_entry (set one_entry fresh "k" "bad").0 writes in
    ((set one_entry fresh "k" "bad").1 ≡ false)
    × All (λ b. b ≡ false) out.1
    × (out.0.on_disk ≡ fresh.on_disk)
set-poisons_example =
    set-poisons one_entry valid (λ d. rejects_range d.range) fresh "k" "bad" writes refl
      (ne_of_test "j" "k" refl, (ne_of_test "l" "k" refl, tt))
