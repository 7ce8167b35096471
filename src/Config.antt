-- ===== src/Config.antt =====
-- config/config.go: the parts of the configuration that the broker's operations read, and the
-- look-ups on it. Limits, costs and counts are natural numbers far below 2^63; the configuration
-- holds no negative ones.
use on_demand_service_broker.Prelude.{
  ℕ, ltb, length, Bool, false, ◌||◌, ◌==◌, Option, none, some, List, [], ◌∷◌, String, if◌then◌else◌,
}
use on_demand_service_broker.Prelude.Dict.{Dict, insert}
use on_demand_service_broker.Json.{Value}

pub record Errand : Type 0 where
  pub name : String
  pub instances : List String

pub record LifecycleErrands : Type 0 where
  pub post_deploy : List Errand
  pub pre_delete : List Errand

pub record ResourceQuota : Type 0 where
  pub limit : ℕ
  pub cost : ℕ

-- A nil pointer or map is `none`.
pub record Quotas : Type 0 where
  pub service_instance_limit : Option ℕ
  pub resources : Option (Dict ResourceQuota)

pub record MaintenanceInfo : Type 0 where
  pub public : Dict String
  pub private : Dict String
  pub version : String
  pub description : String

pub record BindingDns : Type 0 where
  pub name : String
  pub link_provider : String
  pub instance_group : String
  pub azs : List String
  pub status : String

-- The instance groups and the update block are of the SDK's types, and kept as text.
pub record Plan : Type 0 where
  pub id : String
  pub name : String
  pub quotas : Quotas
  pub properties : Dict Value
  pub instance_groups : List String
  pub update : Option String
  pub lifecycle_errands : Option LifecycleErrands
  pub binding_with_dns : List BindingDns
  pub maintenance_info : Option MaintenanceInfo

pub record ServiceOffering : Type 0 where
  pub id : String
  pub name : String
  pub global_properties : Dict Value
  pub global_quotas : Quotas
  pub plans : List Plan
  pub maintenance_info : Option MaintenanceInfo

-- The zero value.
abbrev pub no_plan : Plan
no_plan = record {
  id = "";
  name = "";
  quotas = record { service_instance_limit = none; resources = none };
  properties = [];
  instance_groups = [];
  update = none;
  lifecycle_errands = none;
  binding_with_dns = [];
  maintenance_info = none;
}

unfoldable pub find_by_id : String → List Plan → Option Plan
find_by_id id [] = none
find_by_id id (plan ∷ plans) = if plan.id == id then some plan else find_by_id id plans

unfoldable pub find_plan_by_id : ServiceOffering → String → Option Plan
unfolding find_by_id
find_plan_by_id s id = find_by_id id s.plans

abbrev errands_of : (LifecycleErrands → List Errand) → Option LifecycleErrands → List Errand
errands_of f none = []
errands_of f (some e) = f e

unfoldable pub post_deploy_errands : Plan → List Errand
post_deploy_errands p = errands_of (λ e. e.post_deploy) p.lifecycle_errands

unfoldable pub pre_delete_errands : Plan → List Errand
pre_delete_errands p = errands_of (λ e. e.pre_delete) p.lifecycle_errands

abbrev has_errands : Option LifecycleErrands → Bool
has_errands none = false
has_errands (some e) = ltb 0 (length e.post_deploy) || ltb 0 (length e.pre_delete)

any_has_errands : List Plan → Bool
any_has_errands [] = false
any_has_errands (p ∷ ps) = has_errands p.lifecycle_errands || any_has_errands ps

unfoldable pub has_lifecycle_errands : ServiceOffering → Bool
unfolding any_has_errands
has_lifecycle_errands s = any_has_errands s.plans

-- serviceadapter.Plan of the SDK.
pub record AdapterPlan : Type 0 where
  pub adapter_properties : Dict Value
  pub adapter_instance_groups : List String
  pub adapter_update : Option String
  pub adapter_errands : LifecycleErrands

-- `for k, v := range src { dst[k] = v }`
unfoldable pub copy_map {ℓ} : {V : Type ℓ} → Dict V → Dict V → Dict V
unfolding insert
copy_map dst [] = dst
copy_map dst ((key, value) ∷ src) = copy_map (insert key value dst) src

unfoldable pub merge_properties : Dict Value → Dict Value → Dict Value
unfolding copy_map
merge_properties plan_properties global_properties =
    copy_map (copy_map [] global_properties) plan_properties

abbrev errands_or_empty : Option LifecycleErrands → LifecycleErrands
errands_or_empty none = record { post_deploy = []; pre_delete = [] }
errands_or_empty (some e) = e

unfoldable pub adapter_plan : Plan → Dict Value → AdapterPlan
unfolding merge_properties
adapter_plan p global_properties = record {
  adapter_properties = merge_properties p.properties global_properties;
  adapter_instance_groups = p.instance_groups;
  adapter_update = p.update;
  adapter_errands = errands_or_empty p.lifecycle_errands;
}
