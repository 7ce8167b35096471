-- ===== src/Lifecycle.antt =====
-- broker/lifecycle_runner.go: what the broker does for an operation each time that the platform asks
-- how far it is: it looks at the tasks of the operation, the newest first, and starts the next errand
-- or the deletion once the last one is done. Lines for the log are left out.
pub mod Polls
pub mod Script
pub mod PostDeploy
use on_demand_service_broker.Prelude.{
  ℕ, ◌-◌, ltb, nat_eq, length, get_elem?, Bool, true, false, not, ◌&&◌, ◌||◌, ◌==◌, List, [], ◌∷◌,
  String, Error, other, Io, ◌>>=◌, pure, fail, or_panic, if◌then◌else◌,
}
use on_demand_service_broker.Config.{Errand}
use on_demand_service_broker.OperationData.{
  OperationType, create, update, upgrade, recreate, delete, force_delete, OperationData,
}
use on_demand_service_broker.Bosh.{BoshTask, state_type, is_complete, is_failed, BoshClient}

unfoldable pub valid_post_deploy_op_type : OperationType → Bool
valid_post_deploy_op_type create = true
valid_post_deploy_op_type update = true
valid_post_deploy_op_type recreate = true
valid_post_deploy_op_type upgrade = true
valid_post_deploy_op_type _ = false

unfoldable pub valid_pre_delete_op_type : OperationType → Bool
valid_pre_delete_op_type delete = true
valid_pre_delete_op_type force_delete = true
valid_pre_delete_op_type _ = false

unfoldable pub should_force_delete : OperationType → Bool
should_force_delete force_delete = true
should_force_delete _ = false

unfoldable pub should_skip_error : BoshTask → OperationType → Bool
unfolding state_type should_force_delete
should_skip_error task op = is_failed (state_type task) && should_force_delete op

unfoldable pub task_is_not_done : BoshTask → OperationType → Bool
unfolding state_type should_skip_error
task_is_not_done task op = not (should_skip_error task op) && not (is_complete (state_type task))

unfoldable pub is_old_style_pre_delete : List BoshTask → OperationData → Bool
is_old_style_pre_delete tasks d = nat_eq (length tasks) 1 && not (d.pre_delete_errand.name == "")

unfoldable pub is_old_style_post_deploy : List BoshTask → OperationData → Bool
is_old_style_post_deploy tasks d = nat_eq (length tasks) 1 && not (d.post_deploy_errand.name == "")

unfoldable pub should_run_deprovision : List BoshTask → OperationData → Bool
unfolding is_old_style_pre_delete
should_run_deprovision tasks d =
    nat_eq (length tasks) (length d.errands) || is_old_style_pre_delete tasks d

unfoldable pub has_run_all_errands : List BoshTask → OperationData → Bool
has_run_all_errands tasks d = ltb (length d.errands) (length tasks)

abbrev pub no_tasks_found : Error
no_tasks_found = other "no tasks found for context id"

module _ {W : Type 0} (bosh : BoshClient W) (deployment : String) where
  unfoldable pub run_errand : Errand → String → Io W BoshTask
  run_errand errand context_id =
      bosh.run_errand deployment errand.name errand.instances context_id >>= λ task_id.
      bosh.get_task task_id

  unfoldable pub deprovision_after_all_errand : OperationData → Io W BoshTask
  unfolding should_force_delete
  deprovision_after_all_errand d =
      bosh.delete_deployment deployment d.bosh_context_id (should_force_delete d.operation_type)
      >>= λ task_id. bosh.get_task task_id

  -- `boshTasks[0]`, after the test for an empty list.
  abbrev pub with_tasks : (BoshTask → List BoshTask → Io W BoshTask) → List BoshTask → Io W BoshTask
  with_tasks f [] = fail no_tasks_found
  with_tasks f (task ∷ tasks) = f task (task ∷ tasks)

  unfoldable pub after_post_deployment : OperationData → BoshTask → List BoshTask → Io W BoshTask
  unfolding state_type run_errand is_old_style_post_deploy
  after_post_deployment d task tasks =
      if not (is_complete (state_type task))
      then pure task
      else if is_old_style_post_deploy tasks d
      then run_errand d.post_deploy_errand d.bosh_context_id
      else if ltb (length tasks - 1) (length d.errands)
      then (or_panic (get_elem? d.errands (length tasks - 1)) >>= λ errand.
          run_errand errand d.bosh_context_id)
      else pure task

  unfoldable pub process_post_deployment : OperationData → Io W BoshTask
  unfolding after_post_deployment
  process_post_deployment d =
      bosh.get_normalised_tasks_by_context deployment d.bosh_context_id
      >>= with_tasks (after_post_deployment d)

  unfoldable pub after_pre_delete : OperationData → BoshTask → List BoshTask → Io W BoshTask
  unfolding task_is_not_done should_run_deprovision has_run_all_errands run_errand
      deprovision_after_all_errand
  after_pre_delete d task tasks =
      if task_is_not_done task d.operation_type
      then pure task
      else if should_run_deprovision tasks d
      then deprovision_after_all_errand d
      else if has_run_all_errands tasks d
      then pure task
      else (or_panic (get_elem? d.errands (length tasks)) >>= λ errand.
          run_errand errand d.bosh_context_id)

  unfoldable pub process_pre_delete : OperationData → Io W BoshTask
  unfolding after_pre_delete
  process_pre_delete d =
      bosh.get_normalised_tasks_by_context deployment d.bosh_context_id
      >>= with_tasks (after_pre_delete d)

  unfoldable pub get_task : OperationData → Io W BoshTask
  unfolding valid_post_deploy_op_type valid_pre_delete_op_type process_post_deployment
      process_pre_delete
  get_task d =
      if d.bosh_context_id == ""
      then bosh.get_task d.bosh_task_id
      else if valid_post_deploy_op_type d.operation_type
      then process_post_deployment d
      else if valid_pre_delete_op_type d.operation_type
      then process_pre_delete d
      else bosh.get_task d.bosh_task_id
