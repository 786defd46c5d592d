-- ===== src/Store/Refinement.antt =====
-- internal/store/multitenant.go: the stores of the tenants against one table of tenants and keys.
use oauth4os.Common.{
  ◌⊎◌, String, ◌≡◌, refl, sym, ap, ◌∙◌, inl, inr, Option, none, some, List, [], ◌∷◌, ◌==◌, eq_iff,
  Bool-cases, Option-cases, if◌then◌else◌, ℕ, ◌<◌, ◌≤◌, ◌≢◌, nat_eq, arith, eq_of_some-eq, false,
}
use oauth4os.Common.Dict
use oauth4os.Common.Dict.{Dict, get-put, get-empty}
use oauth4os.Store.Interface.{Store, IsLawful}
use oauth4os.Store.Memory.{memory, new_memory}
use oauth4os.Store.MultiTenant.{
  Heap, write, memory_factory, MultiTenant, new_multi_tenant, for_tenant, get_in, set_in, delete_in,
}

-- A call for a tenant.
pub data Call : Type 0 where
  gets : String → String → Call
  sets : String → String → String → Call
  deletes : String → String → Call

-- One table, from tenants and keys to values.
abbrev pub Table : Type 0
Table = String → String → Option String

abbrev pub entry_set : Table → String → String → Option String → Table
entry_set f t k o t' k' = if t == t' then (if k == k' then o else f t' k') else f t' k'

-- What the reads see of the table.
abbrev pub answers : Table → List Call → List (Option String)
answers f [] = []
answers f (gets t k ∷ cs) = f t k ∷ answers f cs
answers f (sets t k v ∷ cs) = answers (entry_set f t k (some v)) cs
answers f (deletes t k ∷ cs) = answers (entry_set f t k none) cs

-- What is relied on of a factory: it makes a store that nothing else points to, which at first has the
-- values `init`, and leaves the others alone.
pub record MakesNew (S : Store) (factory : Heap S → String → Heap S × ℕ) (init : Table)
    : Type 0 where
  pub unused : (w : Heap S) (t : String) → w.next ≤ (factory w t).1
  pub in_use : (w : Heap S) (t : String) → (factory w t).1 < (factory w t).0.next
  pub others :
      (w : Heap S) (t : String) (a : ℕ)
      → a < w.next
      → (a < (factory w t).0.next) × ((factory w t).0.object a ≡ w.object a)
  pub values :
      (w : Heap S) (t k : String) → S.get ((factory w t).0.object (factory w t).1) k ≡ init t k

-- The factory of the proxy makes a new store in memory each time.
pub memory_factory-MakesNew : MakesNew memory memory_factory (λ t k. Dict.get new_memory k)
unfolding memory_factory
memory_factory-MakesNew = record {
  unused = λ w t. omega arith;
  in_use = λ w t. omega arith;
  others = λ w t a small. (omega (arith, small), ground (arith, small));
  values = λ w t k. ap (λ d. Dict.get d k) (here w.next (w.object w.next));
}
  where
    here : (n : ℕ) (d : Dict String) → (if nat_eq n n then new_memory else d) ≡ new_memory
    here n d = ground arith

module _ (S : Store) (factory : Heap S → String → Heap S × ℕ) where
  -- What the reads see of the stores.
  abbrev pub run : MultiTenant → Heap S → List Call → List (Option String)
  run m w [] = []
  run m w (gets t k ∷ cs) = let (m', w', o) = get_in S factory m w t k in o ∷ run m' w' cs
  run m w (sets t k v ∷ cs) = let (m', w', fine) = set_in S factory m w t k v in run m' w' cs
  run m w (deletes t k ∷ cs) = let (m', w', fine) = delete_in S factory m w t k in run m' w' cs

module _ (S : Store) (factory : Heap S → String → Heap S × ℕ) (init : Table) where
  abbrev at_address : Heap S → String → Option ℕ → String → Option String
  at_address w t none k = init t k
  at_address w t (some a) k = S.get (w.object a) k

  -- The table that the stores stand for; no two tenants point to the same store.
  record Stands (m : MultiTenant) (w : Heap S) (f : Table) : Type 0 where
    value : (t k : String) → at_address w t (Dict.get m.tenants t) k ≡ f t k
    in_use : (t : String) (a : ℕ) → Dict.get m.tenants t ≡ some a → a < w.next
    apart :
        (t t' : String) (a : ℕ)
        → Dict.get m.tenants t ≡ some a
        → Dict.get m.tenants t' ≡ some a
        → t ≡ t'

  new-Stands : (w : Heap S) → Stands new_multi_tenant w init
  unfolding new_multi_tenant
  new-Stands w = record {
    value = λ t k. ap (λ o. at_address w t o k) (get-empty {V = ℕ} t);
    in_use = λ t a e. absurd (cc (e, get-empty {V = ℕ} t));
    apart = λ t t' a e e'. absurd (cc (e, get-empty {V = ℕ} t));
  }

  -- The state after `For`, and its pointer.
  record Found (m : MultiTenant) (w : Heap S) (f : Table) (t : String) : Type 0 where
    stands : Stands (for_tenant S factory m w t).0 (for_tenant S factory m w t).1 f
    points : Dict.get (for_tenant S factory m w t).0.tenants t ≡ some (for_tenant S factory m w t).2

  module _ (makes : MakesNew S factory init) where
    put-Stands :
        (m : MultiTenant) (w : Heap S) (f : Table) (t : String)
        → Dict.get m.tenants t ≡ none
        → Stands m w f
        → let (w', a) = factory w t in Stands (record { tenants = Dict.put m.tenants t a }) w' f
    put-Stands m w f t lost s = record {
      value = λ t' k.
          ap (λ o. at_address w' t' o k) (get-put m.tenants t t' a) ∙ (elim (Bool-cases (t == t')) [
            | inr miss ↦ rw miss (old t' k (Dict.get m.tenants t') refl)
            | inl hit ↦ rw hit (
                makes.values w t k
                ∙ ap (λ o. at_address w t o k) (sym lost)
                ∙ s.value t k
                ∙ ap (λ x. f x k) ((eq_iff t t').0 hit))
          ]);
      in_use = λ t' b e. elim (put_cases t' b e) [
        | inl (same, is) ↦ rw (sym is) (makes.in_use w t)
        | inr there ↦ (makes.others w t b (s.in_use t' b there)).0
      ];
      apart = λ x y b e e'. elim (put_cases x b e) [
        | inl (x_is, is) ↦ elim (put_cases y b e') [
          | inl (y_is, is') ↦ sym x_is ∙ y_is
          | inr there ↦ absurd (new_apart y b is there)
        ]
        | inr there ↦ elim (put_cases y b e') [
          | inl (y_is, is') ↦ absurd (new_apart x b is' there)
          | inr there' ↦ s.apart x y b there there'
        ]
      ];
    }
      where
        w' : Heap S
        w' = (factory w t).0

        a : ℕ
        a = (factory w t).1

        put_cases :
            (x : String) (b : ℕ)
            → Dict.get (Dict.put m.tenants t a) x ≡ some b
            → ((t ≡ x) × (a ≡ b)) ⊎ (Dict.get m.tenants x ≡ some b)
        put_cases x b e = elim (Bool-cases (t == x)) [
          | inl hit ↦
              inl
                ((eq_iff t x).0 hit, eq_of_some-eq a b (ground (arith, e, get-put m.tenants t x a)))
          | inr miss ↦ inr (ground (arith, e, get-put m.tenants t x a))
        ]

        new_apart : (x : String) (b : ℕ) → a ≡ b → Dict.get m.tenants x ≢ some b
        new_apart x b is there = omega (arith, makes.unused w t, s.in_use x b there, is)

        old : (x k : String) (o : Option ℕ) → Dict.get m.tenants x ≡ o → at_address w' x o k ≡ f x k
        old x k none e = ap (λ o. at_address w x o k) (sym e) ∙ s.value x k
        old x k (some b) e =
            ap (λ st. S.get st k) (makes.others w t b (s.in_use x b e)).1
            ∙ ap (λ o. at_address w x o k) (sym e)
            ∙ s.value x k

    for_tenant-Found :
        (m : MultiTenant) (w : Heap S) (f : Table) (t : String) → Stands m w f → Found m w f t
    unfolding for_tenant
    for_tenant-Found m w f t s = elim (Option-cases (Dict.get m.tenants t)) [
      | inr (a, there) ↦ record {
        stands = rw (there, for_tenant) s;
        points = rw (there, for_tenant) there;
      }
      | inl lost ↦ record {
        stands = rw (lost, for_tenant) (put-Stands m w f t lost s);
        points = rw (lost, for_tenant) (rw get-put (ground (arith, eq_iff t t)));
      }
    ]

  -- A write of one entry of a tenant's store changes that entry of the table.
  write-Stands :
      (m : MultiTenant) (w : Heap S) (f : Table) (t k : String) (a : ℕ) (s : S.State)
      (o : Option String)
      → Stands m w f
      → Dict.get m.tenants t ≡ some a
      → ((j : String) → S.get s j ≡ (if k == j then o else S.get (w.object a) j))
      → Stands m (write w a s) (entry_set f t k o)
  write-Stands m w f t k a s o st points changed = record {
    value = λ t' j. elim (Bool-cases (t == t')) [
      | inr miss ↦ rw miss (other t' j miss (Dict.get m.tenants t') refl ∙ st.value t' j)
      | inl hit ↦
          let same : t ≡ t' = (eq_iff t t').0 hit in
          rw hit (
            ap (λ o. at_address (write w a s) t' o j) (ap (Dict.get m.tenants) (sym same) ∙ points)
            ∙ ap (λ x. S.get x j) (here (w.object a))
            ∙ changed j
            ∙ ap (λ x. if k == j then o else x)
                (ap (λ o. at_address w t o j) (sym points) ∙ st.value t j ∙ ap (λ x. f x j) same))
    ];
    in_use = st.in_use;
    apart = st.apart;
  }
    where
      here : (old : S.State) → (if nat_eq a a then s else old) ≡ s
      here old = ground arith

      untouched : (b : ℕ) (old : S.State) → a ≢ b → (if nat_eq a b then s else old) ≡ old
      untouched b old ne = ground arith

      other :
          (x j : String)
          → (t == x) ≡ false
          → (p : Option ℕ) → Dict.get m.tenants x ≡ p
          → at_address (write w a s) x p j ≡ at_address w x (Dict.get m.tenants x) j
      other x j miss none e = ap (λ o. at_address w x o j) (sym e)
      other x j miss (some b) e =
          let ne : a ≢ b = λ is.
            (let same = st.apart t x a points (e ∙ ap some (sym is)) in
              ground (arith, same, miss, eq_iff t x)) in
          ap (λ y. S.get y j) (untouched b (w.object b) ne) ∙ ap (λ o. at_address w x o j) (sym e)

  module _ (makes : MakesNew S factory init) (laws : IsLawful S) where
    run-answers :
        (cs : List Call) (m : MultiTenant) (w : Heap S) (f : Table)
        → Stands m w f
        → run S factory m w cs ≡ answers f cs
    unfolding get_in set_in delete_in
    run-answers [] m w f s = refl
    run-answers (gets t k ∷ cs) m w f s =
        let found = for_tenant-Found makes m w f t s in
        let w' = (for_tenant S factory m w t).1 in
        let seen = ap (λ o. at_address w' t o k) (sym found.points) ∙ found.stands.value t k in
        rw seen (ap (λ rest. f t k ∷ rest) (run-answers cs _ _ f found.stands))
    run-answers (sets t k v ∷ cs) m w f s =
        let found = for_tenant-Found makes m w f t s in
        run-answers cs _ _ (entry_set f t k (some v)) (
          write-Stands _ _ f t k _ _ (some v) found.stands found.points (λ j. laws.get-set _ k v j))
    run-answers (deletes t k ∷ cs) m w f s =
        let found = for_tenant-Found makes m w f t s in
        run-answers cs _ _ (entry_set f t k none)
          (write-Stands _ _ f t k _ _ none found.stands found.points (λ j. laws.get-delete _ k j))

    -- Whatever the tenants write, delete and read, each read gives what one table of all tenants and
    -- keys would give, so no tenant sees the values of another. This needs that the stores keep the laws
    -- of the interface, and that the factory makes a store of its own for each tenant, with the values
    -- that the table has at first; the factory of the proxy does.
    pub run-refines :
        (w : Heap S) (cs : List Call) → run S factory new_multi_tenant w cs ≡ answers init cs
    run-refines w cs = run-answers cs new_multi_tenant w init (new-Stands w)
