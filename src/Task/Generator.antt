-- ===== src/Task/Generator.antt =====
-- task/manifest_generator.go: the plans that go to the adapter, over its call as a parameter. The
-- releases and stemcells are fixed for the broker, and part of that call.
use on_demand_service_broker.Prelude.{
  Option, none, some, String, other, typed, Io, ◌>>=◌, pure, fail,
}
use on_demand_service_broker.Prelude.Dict.{Dict}
use on_demand_service_broker.Json.{Object}
use on_demand_service_broker.Config.{
  Plan, ServiceOffering, find_plan_by_id, AdapterPlan, adapter_plan,
}
use on_demand_service_broker.Task.{GenerateManifestProperties, GeneratedManifest}

-- The arguments of the adapter's GenerateManifest.
pub record AdapterRequest : Type 0 where
  pub deployment_name : String
  pub plan : AdapterPlan
  pub request_params : Object
  pub previous_manifest : String
  pub previous_plan : Option AdapterPlan
  pub old_secrets_map : Dict String
  pub previous_configs : Dict String
  pub uaa_client : Option (Dict String)

module _ {W : Type 0} (adapter : AdapterRequest → Io W GeneratedManifest)
    (offering : ServiceOffering) where
  abbrev plan_or_fail : Option Plan → Io W AdapterPlan
  unfolding adapter_plan
  plan_or_fail none = fail (typed "PlanNotFoundError" (other "plan does not exist"))
  plan_or_fail (some plan) = pure (adapter_plan plan offering.global_properties)

  -- findPlan and findPreviousPlan
  unfoldable pub find_plan : String → Io W AdapterPlan
  unfolding adapter_plan find_plan_by_id
  find_plan plan_id = plan_or_fail (find_plan_by_id offering plan_id)

  abbrev find_previous_plan : Option String → Io W (Option AdapterPlan)
  unfolding find_plan
  find_previous_plan none = pure none
  find_previous_plan (some plan_id) = find_plan plan_id >>= λ plan. pure (some plan)

  unfoldable pub find_plans : String → Option String → Io W (AdapterPlan × Option AdapterPlan)
  unfolding find_plan find_previous_plan
  find_plans plan_id previous_plan_id = find_plan plan_id >>= λ plan.
      find_previous_plan previous_plan_id >>= λ previous_plan. pure (plan, previous_plan)

  unfoldable pub generate_manifest : GenerateManifestProperties → Io W GeneratedManifest
  unfolding find_plans
  generate_manifest props = find_plans props.plan_id props.previous_plan_id >>= λ plans.
      adapter (record {
        deployment_name = props.deployment_name;
        plan = plans.0;
        request_params = props.request_params;
        previous_manifest = props.old_manifest;
        previous_plan = plans.1;
        old_secrets_map = props.secrets_map;
        previous_configs = props.previous_configs;
        uaa_client = props.uaa_client;
      })
