-- ===== src/Scope/Mapper.antt =====
-- internal/scope/mapper.go: the mapper, with the roles and tenants of the configuration.
use oauth4os.Common.{String, none, some, List, [], ◌∷◌, ◌++◌, contains, if◌then◌else◌}
use oauth4os.Common.Dict
use oauth4os.Common.Dict.{Dict}

-- config.Role and config.Tenant
pub record Role : Type 0 where
  pub backend_user : String
  pub backend_roles : List String

pub record Tenant : Type 0 where
  pub scope_mapping : Dict Role
  pub cedar_policies : List String

pub record Mapper : Type 0 where
  pub global : Dict Role
  pub tenants : Dict (Dict Role)

unfoldable pub new_mapper : Dict Role → Mapper
new_mapper global = record { global = global; tenants = Dict.empty }

abbrev pub keep_tenant :
    Dict (Dict Role) → String → List (String × Role) → Dict Role → Dict (Dict Role)
keep_tenant tenants issuer [] mapping = tenants
keep_tenant tenants issuer (r ∷ rs) mapping = Dict.put tenants issuer mapping

-- the loop of NewMultiTenantMapper
unfoldable pub add_tenants : List (String × Tenant) → Dict (Dict Role) → Dict (Dict Role)
add_tenants [] tenants = tenants
add_tenants ((issuer, t) ∷ rest) tenants =
    add_tenants rest (keep_tenant tenants issuer t.scope_mapping.range t.scope_mapping)

unfoldable pub new_multi_tenant_mapper : Dict Role → Dict Tenant → Mapper
unfolding add_tenants
new_multi_tenant_mapper global tenants = record {
  global = global;
  tenants = add_tenants tenants.range Dict.empty;
}

-- `if !seen[r] { roles = append(roles, r); seen[r] = true }`: what was seen is what is in the list
unfoldable pub add_roles : List String → List String → List String
add_roles [] roles = roles
add_roles (r ∷ rs) roles = add_roles rs (if contains roles r then roles else roles ++ r ∷ [])

-- the loop over the scopes
unfoldable pub resolve_from : List String → Dict Role → List String → List String
unfolding add_roles
resolve_from [] mapping roles = roles
resolve_from (s ∷ ss) mapping roles =
    resolve_from ss mapping
      (elim (Dict.get mapping s) [ none ↦ roles | some role ↦ add_roles role.backend_roles roles ])

unfoldable pub resolve : List String → Dict Role → List String
unfolding resolve_from
resolve scopes mapping = resolve_from scopes mapping []

unfoldable pub map_scopes : Mapper → List String → List String
map_scopes m scopes = resolve scopes m.global

unfoldable pub map_for_issuer : Mapper → String → List String → List String
map_for_issuer m issuer scopes = elim (Dict.get m.tenants issuer) [
  | none ↦ resolve scopes m.global
  | some tenant ↦ resolve scopes tenant
]
