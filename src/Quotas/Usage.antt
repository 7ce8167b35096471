-- ===== src/Quotas/Usage.antt =====
-- On the usage that checkGlobalResourceQuotaNotExceeded of broker/quotas.go adds up.
use on_demand_service_broker.Prelude.{
  ℕ, ◌+◌, ◌*◌, ◌≡◌, refl, ◌⊎◌, inl, inr, List, [], ◌∷◌, String, arith,
}
use on_demand_service_broker.Prelude.Dict.{Dict}
use on_demand_service_broker.Config.{ResourceQuota, Plan}
use on_demand_service_broker.Quotas.{
  cost, instance_count, global_usage, global_exceeded, check_global_resource_quota_not_exceeded,
}

-- The cost of one instance of every plan.
abbrev pub total_cost : String → List Plan → ℕ
total_cost kind [] = 0
total_cost kind (p ∷ ps) = cost kind p + total_cost kind ps

-- What the instances of all plans use, each plan by its own count.
abbrev pub used : String → Dict ℕ → List Plan → ℕ
used kind counts [] = 0
used kind counts (p ∷ ps) = cost kind p * instance_count p counts + used kind counts ps

-- Every plan that costs some of the kind has as many instances as the requested one.
abbrev pub CountsAlike : String → Plan → Dict ℕ → List Plan → Type 0
CountsAlike kind plan counts [] = Unit
CountsAlike kind plan counts (p ∷ ps) =
    ((cost kind p ≡ 0) ⊎ (instance_count p counts ≡ instance_count plan counts))
    × CountsAlike kind plan counts ps

-- The usage added up is the number of instances of the requested plan times the cost of one
-- instance of every plan.
pub global_usage_lem :
    (kind : String) (plan : Plan) (counts : Dict ℕ) (usage : ℕ) (plans : List Plan)
    → global_usage kind plan counts usage plans
      ≡ usage + total_cost kind plans * instance_count plan counts
unfolding global_usage
global_usage_lem kind plan counts usage [] = omega arith
global_usage_lem kind plan counts usage (p ∷ ps) = grind (
  arith,
  global_usage_lem kind plan counts usage ps,
  global_usage_lem kind plan counts (usage + cost kind p * instance_count plan counts) ps,
)

-- Where the counts are alike, what is added up is what the instances of all plans use.
pub global_usage-used :
    (kind : String) (plan : Plan) (counts : Dict ℕ) (plans : List Plan)
    → CountsAlike kind plan counts plans
    → global_usage kind plan counts 0 plans ≡ used kind counts plans
global_usage-used kind plan counts plans h =
    omega (arith, global_usage_lem kind plan counts 0 plans, each plans h)
  where
    each :
        (ps : List Plan)
        → CountsAlike kind plan counts ps
        → total_cost kind ps * instance_count plan counts ≡ used kind counts ps
    each [] h = omega arith
    each (p ∷ ps) (inl free, h) = rw free (omega (arith, each ps h))
    each (p ∷ ps) (inr same, h) = grind (arith, same, each ps h)

global_exceeded_of_count :
    (plan : Plan) (plans : List Plan) (counts others : Dict ℕ) (quotas : Dict ResourceQuota)
    → instance_count plan counts ≡ instance_count plan others
    → global_exceeded plan plans counts quotas ≡ global_exceeded plan plans others quotas
unfolding global_exceeded
global_exceeded_of_count plan plans counts others [] h = refl
global_exceeded_of_count plan plans counts others ((kind, quota) ∷ quotas) h =
    simp (global_usage_lem, h, global_exceeded_of_count plan plans counts others quotas h)

-- The verdict of the check on the global resource quotas depends on the count of the requested
-- plan alone: whatever the other plans use, it is the same.
pub check_global_resource_quota_ignores_other_plans :
    (plan : Plan) (plans : List Plan) (counts others : Dict ℕ) (quotas : Dict ResourceQuota)
    → instance_count plan counts ≡ instance_count plan others
    → check_global_resource_quota_not_exceeded plan plans counts quotas
      ≡ check_global_resource_quota_not_exceeded plan plans others quotas
unfolding check_global_resource_quota_not_exceeded
check_global_resource_quota_ignores_other_plans plan plans counts others quotas h =
    rw (global_exceeded_of_count plan plans counts others quotas h)
