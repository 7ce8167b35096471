-- ===== src/OperationData.antt =====
-- broker/broker.go: the data of an operation that the broker hands to the platform and reads back
-- when it is polled, and its types.
use on_demand_service_broker.Prelude.{ℕ, String, List, []}
use on_demand_service_broker.Config.{Errand}

pub data OperationType : Type 0 where
  create update upgrade recreate delete force_delete bind unbind : OperationType
  -- any other text, also none
  other : String → OperationType

pub record OperationData : Type 0 where
  pub bosh_task_id : ℕ
  pub bosh_context_id : String
  pub operation_type : OperationType
  pub plan_id : String
  pub post_deploy_errand : Errand
  pub pre_delete_errand : Errand
  pub errands : List Errand

abbrev pub no_errand : Errand
no_errand = record { name = ""; instances = [] }

-- The zero value.
abbrev pub no_operation_data : OperationData
no_operation_data = record {
  bosh_task_id = 0;
  bosh_context_id = "";
  operation_type = other "";
  plan_id = "";
  post_deploy_errand = no_errand;
  pre_delete_errand = no_errand;
  errands = [];
}
