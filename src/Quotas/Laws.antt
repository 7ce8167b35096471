-- ===== src/Quotas/Laws.antt =====
-- On the instances that broker/quotas.go allows.
use on_demand_service_broker.Prelude.{
  ℕ, ◌+◌, ◌*◌, ◌≤◌, ◌<◌, ◌≡◌, ◌⊎◌, Option, none, some, List, String, All,
}
use on_demand_service_broker.Prelude.Dict.{Dict, lookup}
use on_demand_service_broker.Config.{ResourceQuota, Plan, ServiceOffering}
use on_demand_service_broker.Quotas.{cost, instance_count, total}
use on_demand_service_broker.Quotas.Usage.{used}
use on_demand_service_broker.Quotas.Checks.{IfSet}

module _ (plan : Plan) (counts : Dict ℕ) where
  -- What the instances of all plans use of the kind, each plan by its own count, with one more
  -- instance of the requested plan, stays within the limit.
  abbrev pub FitsGlobal : List Plan → String × ResourceQuota → Type 0
  FitsGlobal plans (kind, quota) = used kind counts plans + cost kind plan ≤ quota.limit

  -- One more instance of the plan stays within the plan's own limit; a limit of 0 is none.
  abbrev pub FitsPlan : String × ResourceQuota → Type 0
  FitsPlan (kind, quota) =
      (quota.limit ≡ 0)
      ⊎ (cost kind plan * instance_count plan counts + cost kind plan ≤ quota.limit)

-- Fewer instances of the plan than its limit are there; a plan with no count has none.
abbrev pub BelowPlanLimit : Option ℕ → ℕ → Type 0
BelowPlanLimit none limit = Unit
BelowPlanLimit (some count) limit = count < limit

-- All that the quotas ask of a new instance of the plan, at the counts by plan identifier.
pub record WithinQuotas (offering : ServiceOffering) (plan : Plan) (counts : Dict ℕ) : Type 0 where
  pub plan_limit : IfSet (BelowPlanLimit (lookup plan.id counts)) plan.quotas.service_instance_limit
  pub global_limit :
      IfSet (λ limit. total counts < limit) offering.global_quotas.service_instance_limit
  pub global_resources :
      IfSet
        (λ quotas. All (FitsGlobal plan counts offering.plans) quotas)
        offering.global_quotas.resources
  pub plan_resources : IfSet (λ quotas. All (FitsPlan plan counts) quotas) plan.quotas.resources
