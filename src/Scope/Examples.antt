-- ===== src/Scope/Examples.antt =====
-- The theorems on the mapper at a configuration with two tenants.
use oauth4os.Common.{String, ◌≡◌, refl, inl, inr, true, some, List, [], ◌∷◌, contains}
use oauth4os.Common.Dict
use oauth4os.Common.Dict.{Dict}
use oauth4os.Scope.Mapper.{Role, Tenant, resolve}
use oauth4os.Scope.Roles.{resolve_lem}

abbrev reader : Role
reader = record { backend_user = "r"; backend_roles = "read_all" ∷ "kibana" ∷ [] }

abbrev writer : Role
writer = record { backend_user = "w"; backend_roles = "kibana" ∷ "write_all" ∷ [] }

abbrev mapping : Dict Role
mapping = Dict.put (Dict.put Dict.empty "read" reader) "write" writer

abbrev tenants : List (String × Tenant)
tenants =
    ("issuer-a", record { scope_mapping = Dict.put Dict.empty "read" writer; cedar_policies = [] })
    ∷ ("issuer-b", record { scope_mapping = Dict.empty; cedar_policies = [] })
    ∷ []

write_known : Dict.get mapping "write" ≡ some writer
unfolding Dict.get Dict.put Dict.empty
write_known = refl

resolve_lem_example : contains (resolve ("read" ∷ "write" ∷ []) mapping) "write_all" ≡ true
resolve_lem_example =
    (resolve_lem ("read" ∷ "write" ∷ []) mapping "write_all").0.1
      (inr (inl (writer, write_known, refl)))
