-- ===== src/Broker/Deprovision.antt =====
-- broker/deprovision.go: the start of the deletion of an instance. The lock on deployments is held
-- for the whole call, so the calls of one deletion stand in a row. The operation data is
-- kept as it is before encoding/json turns it into text, which does not fail on it.
pub mod Commands
pub mod Handover
use Prim.Native.String.{◌++◌}
use on_demand_service_broker.Prelude.{
  ℕ, Bool, true, false, not, Option, none, some, List, [], ◌∷◌, String, Error, other, wrapped,
  displayable, failure_response, typed, Io, ◌>>=◌, ◌>>◌, pure, fail, try, if◌then◌else◌,
}
use on_demand_service_broker.Config.{Errand, Plan, find_plan_by_id, pre_delete_errands}
use on_demand_service_broker.OperationData.{
  OperationType, delete, force_delete, OperationData, no_operation_data,
}
use on_demand_service_broker.Bosh.{BoshTask}
use on_demand_service_broker.Lifecycle.{should_force_delete}
use on_demand_service_broker.Broker.{
  Broker, deployment_name, process_error, generic_error, bosh_request_error, director_error,
}

pub record DeprovisionServiceSpec : Type 0 where
  pub is_async : Bool
  pub operation_data : Option OperationData

abbrev pub no_spec : DeprovisionServiceSpec
no_spec = record { is_async = false; operation_data = none }

abbrev pub async_spec : DeprovisionServiceSpec
async_spec = record { is_async = true; operation_data = none }

-- Go returns a spec also where it returns an error.
abbrev pub Returned : Type 0
Returned = DeprovisionServiceSpec × Option Error

unfoldable pub get_operation_type : Bool → OperationType
get_operation_type true = force_delete
get_operation_type false = delete

abbrev contact_operator : Error
contact_operator =
    other "Unable to delete service. Please try again later or contact your operator."

module _ {W : Type 0} (b : Broker W) where
  unfoldable pub delete_configs_for_not_found_instance : String → Io W (Unit {0})
  unfolding deployment_name generic_error
  delete_configs_for_not_found_instance instance_id =
      try (b.delete_configs (deployment_name instance_id))
        (λ e. fail (
          displayable contact_operator
            (generic_error (wrapped "error deprovisioning: failed to delete configs" e))))
        pure

  unfoldable pub clear_secrets_for_not_found_instance : String → Io W (Unit {0})
  unfolding generic_error
  clear_secrets_for_not_found_instance instance_id =
      try (b.delete_secrets_for_instance instance_id)
        (λ e. fail (
          displayable contact_operator
            (generic_error (wrapped "error deprovisioning: failed to delete secrets" e))))
        pure

  unfoldable pub assert_deployment_exists : String → Io W Bool
  unfolding deployment_name director_error
  assert_deployment_exists instance_id =
      try (b.get_deployment (deployment_name instance_id)) (λ e. fail (director_error e)) pure

  abbrev pub none_in_progress : List BoshTask → Io W (Unit {0})
  none_in_progress [] = pure tt
  none_in_progress (task ∷ tasks) = fail (
      displayable
        (other "An operation is in progress for your service instance. Please try again later.")
        (typed "OperationInProgressError"
          (other "error deprovisioning: deployment is still in progress")))

  unfoldable pub assert_no_operations_in_progress : String → Io W (Unit {0})
  unfolding deployment_name director_error
  assert_no_operations_in_progress instance_id =
      try (b.get_tasks_in_progress (deployment_name instance_id)) (λ e. fail (director_error e))
        none_in_progress

  -- `preDeleteErrands[0]` is `first`.
  unfoldable pub run_pre_delete_errands :
      String → Errand → List Errand → OperationType → Io W DeprovisionServiceSpec
  unfolding deployment_name generic_error
  run_pre_delete_errands instance_id first rest op = b.new_uuid >>= λ context_id.
      try (b.bosh.run_errand (deployment_name instance_id) first.name first.instances context_id)
        (λ e. fail (generic_error e))
        (λ task_id. pure (record {
          is_async = true;
          operation_data = some (record no_operation_data {
            operation_type = op;
            bosh_task_id = task_id;
            bosh_context_id = context_id;
            errands = first ∷ rest;
          });
        }))

  unfoldable pub delete_instance : String → OperationType → Io W DeprovisionServiceSpec
  unfolding deployment_name director_error should_force_delete
  delete_instance instance_id op =
      try
        (b.bosh.delete_deployment (deployment_name instance_id) ("delete-" ++ instance_id)
          (should_force_delete op))
        (λ e. fail (director_error e))
        (λ task_id. pure (record {
          is_async = true;
          operation_data =
              some (record no_operation_data { operation_type = op; bosh_task_id = task_id });
        }))

  abbrev pub refused : DeprovisionServiceSpec → Error → Io W Returned
  unfolding process_error
  refused spec e = pure (spec, some (process_error b.expose_operational_errors e))

  -- The spec, or the spec of an error with the error.
  abbrev pub settled : Io W DeprovisionServiceSpec → Io W Returned
  unfolding process_error
  settled m = try m (refused async_spec) (λ spec. pure (spec, none))

  abbrev pub not_found_after_secrets : String → Io W Returned
  unfolding clear_secrets_for_not_found_instance process_error
  not_found_after_secrets instance_id =
      try (clear_secrets_for_not_found_instance instance_id) (refused async_spec) (λ _.
        refused async_spec (
          displayable (failure_response "instance-does-not-exist")
            (other "error deprovisioning: instance not found")))

  unfoldable pub deprovision_not_found : String → Io W Returned
  unfolding delete_configs_for_not_found_instance clear_secrets_for_not_found_instance process_error
  deprovision_not_found instance_id =
      if b.disable_bosh_configs
      then not_found_after_secrets instance_id
      else try (delete_configs_for_not_found_instance instance_id) (refused async_spec)
          (λ _. not_found_after_secrets instance_id)

  abbrev pub errands_of_plan : Option Plan → List Errand
  unfolding pre_delete_errands
  errands_of_plan none = []
  errands_of_plan (some plan) = pre_delete_errands plan

  -- The error of deleting the UAA client is only logged.
  abbrev pub then_delete_client : String → Returned → Io W Returned
  then_delete_client instance_id r = try (b.delete_client instance_id) (λ _. pure r) (λ _. pure r)

  abbrev pub start_deletion : String → OperationType → List Errand → Io W Returned
  unfolding run_pre_delete_errands delete_instance process_error
  start_deletion instance_id op [] =
      settled (delete_instance instance_id op) >>= then_delete_client instance_id
  start_deletion instance_id op (first ∷ rest) =
      settled (run_pre_delete_errands instance_id first rest op)

  abbrev pub when_found : String → String → Bool → Bool → Io W Returned
  unfolding deprovision_not_found assert_no_operations_in_progress find_plan_by_id
      get_operation_type run_pre_delete_errands delete_instance process_error pre_delete_errands
  when_found instance_id plan_id force false = deprovision_not_found instance_id
  when_found instance_id plan_id force true =
      try (assert_no_operations_in_progress instance_id) (refused async_spec) (λ _.
        start_deletion instance_id (get_operation_type force)
          (errands_of_plan (find_plan_by_id b.service_offering plan_id)))

  unfoldable pub deprovision :
      String → (plan_id : String) (force async_allowed : Bool) → Io W Returned
  unfolding assert_deployment_exists bosh_request_error process_error when_found
  deprovision instance_id plan_id force async_allowed =
      if not async_allowed
      then refused no_spec (failure_response "async-required")
      else try b.get_info (λ e. refused async_spec (bosh_request_error e))
          (λ _.
            try (assert_deployment_exists instance_id) (refused async_spec)
              (when_found instance_id plan_id force))
