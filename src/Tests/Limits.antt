-- ===== src/Tests/Limits.antt =====
-- broker/quotas.go on an offering of two plans.
use on_demand_service_broker.Prelude.{ℕ, ◌≡◌, refl, none, some, List, [], ◌∷◌, String}
use on_demand_service_broker.Prelude.Dict.{Dict}
use on_demand_service_broker.Config.{ResourceQuota, Plan, no_plan, ServiceOffering}
use on_demand_service_broker.Quotas.{
  CfServicePlan, plan_instance_limit_exceeded, check_quotas, instance_count,
  check_global_resource_quota_not_exceeded,
}
use on_demand_service_broker.Quotas.Usage.{check_global_resource_quota_ignores_other_plans}

abbrev resources : ℕ → ℕ → Dict ResourceQuota
resources limit cost = ("ips", record { limit = limit; cost = cost }) ∷ []

abbrev plan_of : String → ℕ → ℕ → Plan
plan_of id limit cost = record no_plan {
  id = id;
  quotas = record { service_instance_limit = some limit; resources = some (resources 0 cost) };
}

abbrev two_plans : List Plan
two_plans = plan_of "small" 3 1 ∷ plan_of "large" 2 4 ∷ []

abbrev offering : ServiceOffering
offering = record {
  id = "service";
  name = "redis";
  global_properties = [];
  global_quotas = record { service_instance_limit = some 10; resources = some (resources 20 0) };
  plans = two_plans;
  maintenance_info = none;
}

abbrev counted : ℕ → ℕ → List (CfServicePlan × ℕ)
counted small large =
    (record { unique_id = "small" }, small) ∷ (record { unique_id = "large" }, large) ∷ []

allowed_run : check_quotas offering (plan_of "small" 3 1) (counted 2 1) ≡ []
unfolding check_quotas
allowed_run = refl

refused_run :
    check_quotas offering (plan_of "small" 3 1) (counted 3 1) ≡ plan_instance_limit_exceeded 3 ∷ []
unfolding check_quotas
refused_run = refl

same_count :
    instance_count (plan_of "small" 3 1) (("small", 2) ∷ ("large", 0) ∷ [])
    ≡ instance_count (plan_of "small" 3 1) (("small", 2) ∷ ("large", 100) ∷ [])
unfolding instance_count
same_count = refl

-- A hundred instances of the large plan, at four addresses each, do not count against the twenty.
check_global_resource_quota_ignores_other_plans_example :
    check_global_resource_quota_not_exceeded
      (plan_of "small" 3 1)
      two_plans
      (("small", 2) ∷ ("large", 0) ∷ [])
      (resources 20 0)
    ≡ check_global_resource_quota_not_exceeded
        (plan_of "small" 3 1)
        two_plans
        (("small", 2) ∷ ("large", 100) ∷ [])
        (resources 20 0)
check_global_resource_quota_ignores_other_plans_example =
    check_global_resource_quota_ignores_other_plans (plan_of "small" 3 1) two_plans
      (("small", 2) ∷ ("large", 0) ∷ []) (("small", 2) ∷ ("large", 100) ∷ []) (resources 20 0)
      same_count
