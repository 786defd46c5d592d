-- ===== src/Store/MultiTenant.antt =====
-- internal/store/multitenant.go: a store for each tenant. The map holds pointers: `Heap` is the memory
-- behind them, so that two tenants share a store if the factory gives both the same. The factory is a
-- parameter; `memory_factory` is the one of cmd/proxy/main.go.
use oauth4os.Common.{
  ℕ, ◌+◌, String, Bool, true, ◌&&◌, Option, none, some, List, [], ◌∷◌, nat_eq, if◌then◌else◌,
}
use oauth4os.Common.Dict
use oauth4os.Common.Dict.{Dict}
use oauth4os.Common.Dict.Size.{keys}
use oauth4os.Store.Interface.{Store}
use oauth4os.Store.Memory.{memory, new_memory}

-- Addresses below `next` are in use.
pub record Heap (S : Store) : Type 0 where
  pub next : ℕ
  pub object : ℕ → S.State

-- a write through a pointer
abbrev pub write : {S : Store} → Heap S → ℕ → S.State → Heap S
write w a s = record w { object = λ b. if nat_eq a b then s else w.object b }

-- func(tenant string) Store { return store.NewMemory() }
unfoldable pub memory_factory : Heap memory → String → Heap memory × ℕ
memory_factory w tenant = (
  record { next = w.next + 1; object = λ b. if nat_eq w.next b then new_memory else w.object b },
  w.next,
)

pub record MultiTenant : Type 0 where
  pub tenants : Dict ℕ

unfoldable pub new_multi_tenant : MultiTenant
new_multi_tenant = record { tenants = Dict.empty }

unfoldable pub tenant_ids : MultiTenant → List String
tenant_ids m = keys m.tenants.range

module _ (S : Store) (factory : Heap S → String → Heap S × ℕ) where
  -- `For` gives the pointer
  unfoldable pub for_tenant : MultiTenant → Heap S → String → MultiTenant × Heap S × ℕ
  for_tenant m w tenant = elim (Dict.get m.tenants tenant) [
    | some a ↦ (m, w, a)
    | none ↦
        let (w', a) = factory w tenant in (record { tenants = Dict.put m.tenants tenant a }, w', a)
  ]

  -- For(tenant).Get(key)
  unfoldable pub get_in :
      MultiTenant → Heap S → String → String → MultiTenant × Heap S × Option String
  unfolding for_tenant
  get_in m w tenant key =
      let (m', w', a) = for_tenant m w tenant in (m', w', S.get (w'.object a) key)

  abbrev pub written : MultiTenant → Heap S → ℕ → S.State × Bool → MultiTenant × Heap S × Bool
  written m w a (s, fine) = (m, write w a s, fine)

  -- For(tenant).Set(key, value)
  unfoldable pub set_in :
      MultiTenant → Heap S → String → String → String → MultiTenant × Heap S × Bool
  unfolding for_tenant
  set_in m w tenant key value =
      let (m', w', a) = for_tenant m w tenant in written m' w' a (S.set (w'.object a) key value)

  -- For(tenant).Delete(key)
  unfoldable pub delete_in : MultiTenant → Heap S → String → String → MultiTenant × Heap S × Bool
  unfolding for_tenant
  delete_in m w tenant key =
      let (m', w', a) = for_tenant m w tenant in written m' w' a (S.delete (w'.object a) key)

  -- the loop of CloseAll: whether no store had an error
  abbrev pub close_range : List (String × ℕ) → Heap S → Heap S × Bool
  close_range [] w = (w, true)
  close_range ((tenant, a) ∷ rest) w =
      let (s, fine) = S.close (w.object a) in
      let (w', all_fine) = close_range rest (write w a s) in (w', fine && all_fine)

  unfoldable pub close_all : MultiTenant → Heap S → Heap S × Bool
  close_all m w = close_range m.tenants.range w
