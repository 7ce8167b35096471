-- ===== src/Bosh.antt =====
-- boshdirector/task.go, boshdirector/tasks.go, and the calls of the BOSH client that the broker's
-- lifecycle makes. The client reaches the director over the network, so it is a record of calls on a
-- world `W`.
use on_demand_service_broker.Prelude.{ℕ, Bool, true, false, ◌==◌, List, String, Io, if◌then◌else◌}

pub record BoshTask : Type 0 where
  pub id : ℕ
  pub state : String
  pub description : String
  pub result : String
  pub context_id : String

pub data TaskStateType : Type 0 where
  task_complete task_incomplete task_failed task_unknown : TaskStateType

abbrev pub type_of_state : String → TaskStateType
type_of_state state =
    if state == "done"
    then task_complete
    else if state == "processing"
    then task_incomplete
    else if state == "queued"
    then task_incomplete
    else if state == "cancelling"
    then task_incomplete
    else if state == "cancelled"
    then task_failed
    else if state == "error"
    then task_failed
    else if state == "timeout"
    then task_failed
    else task_unknown

unfoldable pub state_type : BoshTask → TaskStateType
state_type t = type_of_state t.state

abbrev pub is_complete : TaskStateType → Bool
is_complete task_complete = true
is_complete _ = false

abbrev pub is_failed : TaskStateType → Bool
is_failed task_failed = true
is_failed _ = false

-- `BoshClient` of broker/broker.go, as far as LifeCycleRunner uses it; a deployment is named first.
pub record BoshClient (W : Type 0) : Type 0 where
  pub get_task : ℕ → Io W BoshTask
  pub get_normalised_tasks_by_context : String → String → Io W (List BoshTask)
  pub run_errand : String → (name : String) (instances : List String) (context_id : String) → Io W ℕ
  pub delete_deployment : String → (context_id : String) (force : Bool) → Io W ℕ
