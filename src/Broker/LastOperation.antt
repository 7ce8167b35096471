-- ===== src/Broker/LastOperation.antt =====
-- broker/last_operation.go: how far an operation is. The raw operation data comes decoded: `none`
-- stands for text that is missing or cannot be parsed. Logging and telemetry are left out.
pub mod Early
use on_demand_service_broker.Prelude.{
  ℕ, nat_eq, Bool, true, false, not, ◌&&◌, Option, none, some, String, Error, other, wrapped,
  displayable, Io, pure, fail, try, if◌then◌else◌,
}
use on_demand_service_broker.OperationData.{
  OperationType, create, update, upgrade, recreate, delete, force_delete, bind, unbind,
  OperationData,
}
use on_demand_service_broker.Bosh.{
  BoshTask, TaskStateType, task_complete, task_incomplete, task_failed, task_unknown, state_type,
  is_complete,
}
use on_demand_service_broker.Lifecycle
use on_demand_service_broker.Lifecycle.{valid_pre_delete_op_type}
use on_demand_service_broker.Broker.{Broker, deployment_name, process_error, generic_error}

pub data State : Type 0 where
  state_in_progress state_succeeded state_failed : State

-- The text of `descriptions`, and what is added to it: the number of the task of a failed upgrade or
-- the error for the user, and the result of the task.
pub record Description : Type 0 where
  pub of_state : State
  pub of_type : OperationType
  pub upgrade_task : Option ℕ
  pub for_user : Option Error
  pub error_message : Option String

pub record LastOperation : Type 0 where
  pub state : State
  pub description : Description

abbrev error_for_cf_user : Error → Error
error_for_cf_user (displayable for_user for_operator) = for_user
error_for_cf_user e = e

abbrev failed_description : OperationType → BoshTask → Option String → Description
unfolding generic_error
failed_description upgrade task message = record {
  of_state = state_failed;
  of_type = upgrade;
  upgrade_task = some task.id;
  for_user = none;
  error_message = message;
}
failed_description op task message = record {
  of_state = state_failed;
  of_type = op;
  upgrade_task = none;
  for_user = some (error_for_cf_user (generic_error (other "")));
  error_message = message;
}

abbrev pub plain_description : State → OperationType → Description
plain_description state op = record {
  of_state = state;
  of_type = op;
  upgrade_task = none;
  for_user = none;
  error_message = none;
}

unfoldable pub construct_last_operation : State → BoshTask → OperationType → Bool → LastOperation
unfolding generic_error
construct_last_operation state_failed task op expose = record {
  state = state_failed;
  description = failed_description op task (if expose then some task.result else none);
}
construct_last_operation state task op expose = record {
  state = state;
  description = plain_description state op;
}

abbrev state_of_type : TaskStateType → State
state_of_type task_incomplete = state_in_progress
state_of_type task_complete = state_succeeded
state_of_type task_failed = state_failed
state_of_type task_unknown = state_failed

unfoldable pub last_operation_state : BoshTask → State
unfolding state_type
last_operation_state task = state_of_type (state_type task)

module _ {W : Type 0} (b : Broker W) where
  unfoldable pub delete_configs_and_secrets_after_delete :
      String → OperationType → BoshTask → Io W (Unit {0})
  unfolding valid_pre_delete_op_type state_type deployment_name
  delete_configs_and_secrets_after_delete instance_id op task =
      if not (valid_pre_delete_op_type op && is_complete (state_type task))
      then pure tt
      else if b.disable_bosh_configs
      then b.delete_secrets_for_instance instance_id
      else try (b.delete_configs (deployment_name instance_id)) fail
          (λ _. b.delete_secrets_for_instance instance_id)

  abbrev refuse : {A : Type 0} → Error → Io W A
  unfolding process_error generic_error
  refuse e = fail (process_error b.expose_operational_errors (generic_error e))

  -- What follows the look at the tasks.
  unfoldable pub conclude : String → OperationData → BoshTask → Io W LastOperation
  unfolding delete_configs_and_secrets_after_delete construct_last_operation last_operation_state
  conclude instance_id d task =
      try (delete_configs_and_secrets_after_delete instance_id d.operation_type task)
        (λ _.
          pure (
            construct_last_operation state_failed task d.operation_type
              b.expose_operational_errors))
        (λ _. pure (
          construct_last_operation (last_operation_state task) task d.operation_type
            b.expose_operational_errors))

  unfoldable pub last_operation : String → Option OperationData → Io W LastOperation
  unfolding conclude Lifecycle.get_task deployment_name process_error generic_error
  last_operation instance_id none =
      refuse (other "Request missing operation data, or it cannot be parsed")
  last_operation instance_id (some d) =
      if nat_eq d.bosh_task_id 0
      then refuse (other "no task ID found in operation data")
      else try (Lifecycle.get_task b.bosh (deployment_name instance_id) d)
          (λ e. refuse (wrapped "error retrieving tasks from bosh" e)) (conclude instance_id d)
