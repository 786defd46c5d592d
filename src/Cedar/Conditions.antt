-- ===== src/Cedar/Conditions.antt =====
-- internal/cedar: the conditions of a policy, removal by id, and the isolation of tenants.
use oauth4os.Common.{
  String, ◌≡◌, ◌≢◌, refl, ap, Bool, true, false, some, List, [], ◌∷◌, ◌++◌, ◌==◌, eq_iff, eq_refl,
  All, arith,
}
use oauth4os.Common.Dict
use oauth4os.Common.Dict.{Dict, get-put}
use oauth4os.Cedar.Engine.{
  Condition, Policy, Request, Engine, new_engine, eval_conditions, evaluate, remove_first,
  remove_policy,
}
use oauth4os.Cedar.Tenant.{
  TenantEngine, add_tenant, evaluate_for, add_global_policy, remove_global_policy,
}

-- An `in` ends the evaluation: whatever conditions come after it are not looked at.
pub in_ends :
    (cs ds : List Condition) (c : Condition) (req : Request)
    → c.op ≡ "in"
    → eval_conditions (cs ++ c ∷ ds) req ≡ eval_conditions (cs ++ c ∷ []) req
unfolding eval_conditions
in_ends [] ds c req h = rw h
in_ends (b ∷ cs) ds c req h = ground (arith, in_ends cs ds c req h)

-- Removing by id takes out the first policy that has the id and keeps the rest in order; where no
-- policy has it, nothing changes and the answer is false.
pub remove_policy_lem :
    (before : List Policy) (p : Policy) (after : List Policy) (id : String)
    → All (λ q. (q.id == id) ≡ false) before
    → p.id ≡ id
    → (remove_policy (new_engine before) id ≡ (new_engine before, false))
      × (remove_policy (new_engine (before ++ p ∷ after)) id ≡ (new_engine (before ++ after), true))
unfolding remove_policy
remove_policy_lem before p after id h e = (ap pack (absent before h), ap pack (present before h))
  where
    pack : List Policy × Bool → Engine × Bool
    pack (policies, found) = (new_engine policies, found)

    absent :
        (ps : List Policy) → All (λ q. (q.id == id) ≡ false) ps → remove_first id ps ≡ (ps, false)
    absent [] k = refl
    absent (q ∷ ps) k = rw (absent ps k.1) (rw k.0)

    present :
        (ps : List Policy)
        → All (λ q. (q.id == id) ≡ false) ps
        → remove_first id (ps ++ p ∷ after) ≡ (ps ++ after, true)
    present [] k = rw (e, eq_refl id)
    present (q ∷ ps) k = rw (present ps k.1) (rw k.0)

-- A tenant's requests are decided by its own policies alone: no change of the global policies is
-- seen by an issuer that has a tenant, and no tenant is seen by the other issuers.
pub tenant_isolation :
    (te : TenantEngine) (issuer other : String) (ps : List Policy) (p : Policy) (id : String)
    (req : Request)
    → issuer ≢ other
    → let with_tenant = add_tenant te issuer ps in
      (evaluate_for with_tenant issuer req ≡ evaluate (new_engine ps) req)
      × (evaluate_for (add_global_policy with_tenant p) issuer req ≡ evaluate (new_engine ps) req)
      × (evaluate_for (remove_global_policy with_tenant id).0 issuer req
          ≡ evaluate (new_engine ps) req)
      × (evaluate_for with_tenant other req ≡ evaluate_for te other req)
unfolding evaluate_for add_tenant add_global_policy remove_global_policy
tenant_isolation te issuer other ps p id req h =
    let own : Dict.get (Dict.put te.tenants issuer (new_engine ps)) issuer ≡ some (new_engine ps) =
      rw (get-put, eq_refl) in
    (
      rw (own, evaluate_for),
      rw (own, evaluate_for),
      rw (own, evaluate_for),
      ground (arith, get-put te.tenants issuer other (new_engine ps), eq_iff issuer other),
    )
