-- ===== src/Cedar/Tenant.antt =====
-- internal/cedar/tenant.go: policies per issuer, with the global ones for all other issuers.
use oauth4os.Common.{String, Bool, none, some, List}
use oauth4os.Common.Dict
use oauth4os.Common.Dict.{Dict}
use oauth4os.Cedar.Engine.{
  Policy, Request, Decision, Engine, new_engine, evaluate, add_policy, remove_policy,
}

pub record TenantEngine : Type 0 where
  pub global : Engine
  pub tenants : Dict Engine

unfoldable pub new_tenant_engine : List Policy → TenantEngine
new_tenant_engine policies = record { global = new_engine policies; tenants = Dict.empty }

unfoldable pub add_tenant : TenantEngine → String → List Policy → TenantEngine
add_tenant te issuer policies = record te {
  tenants = Dict.put te.tenants issuer (new_engine policies);
}

unfoldable pub evaluate_for : TenantEngine → String → Request → Decision
evaluate_for te issuer req = elim (Dict.get te.tenants issuer) [
  | none ↦ evaluate te.global req
  | some engine ↦ evaluate engine req
]

unfoldable pub list_policies : TenantEngine → List Policy
list_policies te = te.global.policies

unfoldable pub add_global_policy : TenantEngine → Policy → TenantEngine
add_global_policy te p = record te { global = add_policy te.global p }

unfoldable pub remove_global_policy : TenantEngine → String → TenantEngine × Bool
remove_global_policy te id =
    let (engine, found) = remove_policy te.global id in (record te { global = engine }, found)
