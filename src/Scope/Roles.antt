-- ===== src/Scope/Roles.antt =====
-- internal/scope/mapper.go: the roles that a list of scopes stands for, and whose mapping is asked.
use mathlib.Core.Path.{subst}
use oauth4os.Common.{
  String, ◌≡◌, ◌↔◌, refl, sym, ap, ◌∙◌, inl, inr, Bool, true, false, ◌||◌, Option, none, some, List,
  [], ◌∷◌, ◌++◌, ◌==◌, eq_iff, All, Any, contains, contains-append, Bool-cases, Option-cases, arith,
  if◌then◌else◌,
}
use oauth4os.Common.Dict
use oauth4os.Common.Dict.{Dict, get-put, get-empty, get-range, get-range_none}
use oauth4os.Scope.Mapper.{
  Role, Tenant, Mapper, new_multi_tenant_mapper, add_tenants, keep_tenant, add_roles, resolve_from,
  resolve, map_for_issuer,
}

-- A scope that the mapping knows, with the role among those of the backend.
abbrev pub Grants : Dict Role → String → String → Type 0
Grants mapping r s =
    (role : Role) × (Dict.get mapping s ≡ some role) × (contains role.backend_roles r ≡ true)

abbrev pub Distinct : List String → Type 0
Distinct [] = Unit
Distinct (x ∷ xs) = (contains xs x ≡ false) × Distinct xs

abbrev holds : Option Role → String → Bool
holds none r = false
holds (some role) r = contains role.backend_roles r

some_holds : List String → Dict Role → String → Bool
some_holds [] mapping r = false
some_holds (s ∷ ss) mapping r = holds (Dict.get mapping s) r || some_holds ss mapping r

contains-add_roles :
    (rs roles : List String) (r : String)
    → contains (add_roles rs roles) r ≡ (contains roles r || contains rs r)
unfolding add_roles
contains-add_roles [] roles r = ground arith
contains-add_roles (x ∷ rs) roles r = elim (Bool-cases (contains roles x)) [
  | inl old ↦ rw old (ground (arith, contains-add_roles rs roles r, eq_iff x r))
  | inr new ↦
      rw new (
        ground (arith, contains-add_roles rs (roles ++ x ∷ []) r, contains-append roles (x ∷ []) r))
]

contains-resolve_from :
    (ss : List String) (mapping : Dict Role) (roles : List String) (r : String)
    → contains (resolve_from ss mapping roles) r ≡ (contains roles r || some_holds ss mapping r)
unfolding resolve_from some_holds
contains-resolve_from [] mapping roles r = ground arith
contains-resolve_from (s ∷ ss) mapping roles r = elim (Option-cases (Dict.get mapping s)) [
  | inl e ↦ rw e (contains-resolve_from ss mapping roles r)
  | inr (role, e) ↦ rw e (
      ground (
        arith,
        contains-resolve_from ss mapping (add_roles role.backend_roles roles) r,
        contains-add_roles role.backend_roles roles r,
      ))
]

some_holds-Any :
    (ss : List String) (mapping : Dict Role) (r : String)
    → some_holds ss mapping r ≡ true
    → Any (Grants mapping r) ss
unfolding some_holds
some_holds-Any [] mapping r h = absurd (ground arith)
some_holds-Any (s ∷ ss) mapping r h = elim (Option-cases (Dict.get mapping s)) [
  | inl e ↦ inr (some_holds-Any ss mapping r (ground arith))
  | inr (role, e) ↦ elim (Bool-cases (contains role.backend_roles r)) [
    | inl held ↦ inl (role, e, held)
    | inr other ↦ inr (some_holds-Any ss mapping r (ground arith))
  ]
]

Any-some_holds :
    (ss : List String) (mapping : Dict Role) (r : String)
    → Any (Grants mapping r) ss
    → some_holds ss mapping r ≡ true
unfolding some_holds
Any-some_holds [] mapping r h = absurd h
Any-some_holds (s ∷ ss) mapping r (inl (role, e, held)) = rw e (ground arith)
Any-some_holds (s ∷ ss) mapping r (inr h) = ground (arith, Any-some_holds ss mapping r h)

Distinct-snoc :
    (xs : List String) (x : String) → contains xs x ≡ false → Distinct xs → Distinct (xs ++ x ∷ [])
Distinct-snoc [] x h d = (refl, tt)
Distinct-snoc (y ∷ xs) x h d = (
  ground (arith, contains-append xs (x ∷ []) y, d.0, eq_iff y x, eq_iff x y),
  Distinct-snoc xs x (ground arith) d.1,
)

Distinct-add_roles : (rs roles : List String) → Distinct roles → Distinct (add_roles rs roles)
unfolding add_roles
Distinct-add_roles [] roles d = d
Distinct-add_roles (x ∷ rs) roles d = elim (Bool-cases (contains roles x)) [
  | inl old ↦ rw old (Distinct-add_roles rs roles d)
  | inr new ↦ rw new (Distinct-add_roles rs (roles ++ x ∷ []) (Distinct-snoc roles x new d))
]

Distinct-resolve_from :
    (ss : List String) (mapping : Dict Role) (roles : List String)
    → Distinct roles
    → Distinct (resolve_from ss mapping roles)
unfolding resolve_from
Distinct-resolve_from [] mapping roles d = d
Distinct-resolve_from (s ∷ ss) mapping roles d = elim (Option-cases (Dict.get mapping s)) [
  | inl e ↦ rw e (Distinct-resolve_from ss mapping roles d)
  | inr (role, e) ↦ rw e (
      Distinct-resolve_from ss mapping (add_roles role.backend_roles roles)
        (Distinct-add_roles role.backend_roles roles d))
]

-- A backend role is among those of a list of scopes exactly if one of the scopes is mapped to it,
-- and no role is listed twice.
pub resolve_lem :
    (scopes : List String) (mapping : Dict Role) (r : String)
    → ((contains (resolve scopes mapping) r ≡ true) ↔ Any (Grants mapping r) scopes)
      × Distinct (resolve scopes mapping)
unfolding resolve
resolve_lem scopes mapping r = (
  (
    (λ h. some_holds-Any scopes mapping r (sym (contains-resolve_from scopes mapping [] r) ∙ h)),
    λ h. contains-resolve_from scopes mapping [] r ∙ Any-some_holds scopes mapping r h,
  ),
  Distinct-resolve_from scopes mapping [] tt,
)

-- The keys of a map, as a range visits them, are different.
abbrev pub DistinctKeys {ℓ} : {V : Type ℓ} → List (String × V) → Type ℓ
DistinctKeys [] = Unit
DistinctKeys ((k, v) ∷ rest) = All (λ e. (e.0 == k) ≡ false) rest × DistinctKeys rest

abbrev keyed : List (String × Tenant) → Dict Tenant
keyed l = record { range = l }

-- No entry has the key.
abbrev Lacks : List (String × Tenant) → String → Type 0
Lacks l k = All (λ e. (e.0 == k) ≡ false) l

-- The mapping of a tenant, if it has any entry.
abbrev own_mapping : List (String × Role) → Dict Role → Option (Dict Role) → Option (Dict Role)
own_mapping [] mapping old = old
own_mapping (r ∷ rs) mapping old = some mapping

abbrev kept_or : Option (Dict Role) → Option Tenant → Option (Dict Role)
kept_or old none = old
kept_or old (some t) = own_mapping t.scope_mapping.range t.scope_mapping old

get-keep_tenant :
    (acc : Dict (Dict Role)) (k issuer : String) (rs : List (String × Role)) (mapping : Dict Role)
    → Dict.get (keep_tenant acc k rs mapping) issuer
      ≡ (if k == issuer then own_mapping rs mapping (Dict.get acc issuer) else Dict.get acc issuer)
get-keep_tenant acc k issuer [] mapping = ground arith
get-keep_tenant acc k issuer (r ∷ rs) mapping = get-put acc k issuer mapping

get-add_tenants :
    (l : List (String × Tenant)) (acc : Dict (Dict Role)) (issuer : String)
    → DistinctKeys l
    → Dict.get (add_tenants l acc) issuer
      ≡ kept_or (Dict.get acc issuer) (Dict.get (keyed l) issuer)
unfolding add_tenants
get-add_tenants [] acc issuer d = rw (get-range_none {V = Tenant} issuer [] tt) refl
get-add_tenants ((k, t) ∷ rest) acc issuer d =
    let kept = keep_tenant acc k t.scope_mapping.range t.scope_mapping in
    let there = get-keep_tenant acc k issuer t.scope_mapping.range t.scope_mapping in
    elim (Bool-cases (k == issuer)) [
      | inl hit ↦
          let lost =
            get-range_none issuer rest (subst (Lacks rest) ((eq_iff k issuer).0 hit) d.0) in
          get-add_tenants rest kept issuer d.1
          ∙ rw lost (there ∙ rw hit (rw (get-range k issuer t rest) (rw hit refl)))
      | inr miss ↦
          get-add_tenants rest kept issuer d.1
          ∙ rw there (rw miss (rw (get-range k issuer t rest) (rw miss refl)))
    ]

-- The mapping that the configuration of a tenant, if there is one, stands for: its own if that has
-- an entry, the global one otherwise.
abbrev pub mapping_for : Dict Role → Option Tenant → Dict Role
mapping_for global none = global
mapping_for global (some t) =
    Dict.or_else (own_mapping t.scope_mapping.range t.scope_mapping none) global

map_for_issuer-mapping :
    (m : Mapper) (issuer : String) (scopes : List String)
    → map_for_issuer m issuer scopes
      ≡ resolve scopes (Dict.or_else (Dict.get m.tenants issuer) m.global)
unfolding map_for_issuer
map_for_issuer-mapping m issuer scopes = elim (Option-cases (Dict.get m.tenants issuer)) [
  | inl e ↦ rw (e, map_for_issuer) refl
  | inr (mapping, e) ↦ rw (e, map_for_issuer) refl
]

mapping_for-kept :
    (global : Dict Role) (o : Option Tenant)
    → Dict.or_else (kept_or none o) global ≡ mapping_for global o
mapping_for-kept global none = refl
mapping_for-kept global (some t) = refl

-- An issuer's scopes are resolved by its tenant's own mapping where the configuration gives one
-- with an entry, and by the global mapping otherwise.
pub map_for_issuer-new :
    (global : Dict Role) (tenants : List (String × Tenant)) (issuer : String) (scopes : List String)
    → DistinctKeys tenants
    → map_for_issuer (new_multi_tenant_mapper global (record { range = tenants })) issuer scopes
      ≡ resolve scopes (mapping_for global (Dict.get (record { range = tenants }) issuer))
map_for_issuer-new global tenants issuer scopes d =
    let built = new_multi_tenant_mapper global (record { range = tenants }) in
    let added : Dict.get built.tenants issuer
        ≡ kept_or (Dict.get Dict.empty issuer) (Dict.get (keyed tenants) issuer) =
      unfold new_multi_tenant_mapper in get-add_tenants tenants Dict.empty issuer d in
    let own_global : built.global ≡ global = unfold new_multi_tenant_mapper in refl in
    map_for_issuer-mapping built issuer scopes
    ∙ rw (added, get-empty) (rw own_global (ap (resolve scopes) (mapping_for-kept global _)))
