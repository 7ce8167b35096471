-- ===== src/Director/Errands.antt =====
-- On what broker/lifecycle_runner.go makes of an errand that fails, through the client of boshdirector.
use on_demand_service_broker.Prelude.{
  ℕ, ◌≡◌, refl, ◌⊎◌, inl, inr, nat_eq, true, false, Option, List, ◌∷◌, String, ◌==◌, eq_iff, ok,
}
use on_demand_service_broker.OperationData.{OperationData, delete}
use on_demand_service_broker.Bosh.{BoshTask, state_type}
use on_demand_service_broker.Lifecycle.{
  valid_post_deploy_op_type, valid_pre_delete_op_type, process_post_deployment, process_pre_delete,
  after_post_deployment, after_pre_delete, task_is_not_done, should_skip_error, should_force_delete,
}
use on_demand_service_broker.Lifecycle
use on_demand_service_broker.Director.{
  DirectorTask, Director, bosh_client, get_normalised_tasks_by_context, exit_code_of,
}
use on_demand_service_broker.Director.Tasks.{AnswersSteadily, normalised, normalise_lem}

abbrev pub with_error : BoshTask → BoshTask
with_error t = record t { state = "error" }

module _ {W : Type 0} (d : Director W) (outputs : ℕ → Option ℕ) (w : W) (deployment : String)
    (op : OperationData) (t : DirectorTask) (ts : List DirectorTask) where
  -- The newest task of the operation is done, but the exit code in its output is not 0.
  pub record NewestFails : Type 0 where
    pub in_context : op.bosh_context_id == "" ≡ false
    pub found : d.find_tasks_by_context_id op.bosh_context_id w ≡ (ok (t ∷ ts), w)
    pub belongs : t.deployment ≡ deployment
    pub done : t.task.state ≡ "done"
    pub exits : nat_eq (exit_code_of (outputs t.task.id)) 0 ≡ false

  first_failed :
      NewestFails
      → normalised outputs deployment (t ∷ ts)
        ≡ with_error t.task ∷ normalised outputs deployment ts
  first_failed h =
      rw
        (
          (eq_iff t.deployment deployment).1 h.belongs,
          (eq_iff t.task.state "done").1 h.done,
          h.exits,
        )
        refl

  client_gives_failed :
      AnswersSteadily d outputs w
      → NewestFails
      → get_normalised_tasks_by_context d deployment op.bosh_context_id w
        ≡ (ok (with_error t.task ∷ normalised outputs deployment ts), w)
  unfolding get_normalised_tasks_by_context
  client_gives_failed steady h =
      rw
        (
          steady.builds,
          h.found,
          normalise_lem d outputs w steady deployment (t ∷ ts),
          first_failed h,
        )
        refl

  -- A deployment with errands, and a deletion with errands that is not forced, stop at an errand whose
  -- exit code is not 0, although the director counts its task as done: a poll answers with the task
  -- as failed, and starts neither an errand nor the deletion. The errand is the newest task of
  -- the operation, and the director answers every question without change.
  pub get_task_stops_at_failed_errand :
      AnswersSteadily d outputs w
      → (valid_post_deploy_op_type op.operation_type ≡ true) ⊎ (op.operation_type ≡ delete)
      → NewestFails
      → Lifecycle.get_task (bosh_client d) deployment op w ≡ (ok (with_error t.task), w)
  unfolding Lifecycle.get_task process_post_deployment process_pre_delete after_post_deployment
      after_pre_delete state_type task_is_not_done should_skip_error should_force_delete
      valid_post_deploy_op_type valid_pre_delete_op_type
  get_task_stops_at_failed_errand steady (inl kind) h =
      rw (h.in_context, kind, client_gives_failed steady h) refl
  get_task_stops_at_failed_errand steady (inr kind) h =
      rw (h.in_context, kind, client_gives_failed steady h) refl
