-- ===== src/Broker/LastOperation/Early.antt =====
-- On the deletions whose end broker/last_operation.go reports.
use on_demand_service_broker.Prelude.{
  ℕ, ◌<◌, ◌≡◌, refl, false, nat_eq, length, get_elem?, some, List, ◌∷◌, String, ok, arith,
  Bool-cases, inl, inr,
}
use on_demand_service_broker.Config.{Errand}
use on_demand_service_broker.OperationData.{OperationData}
use on_demand_service_broker.Bosh.{BoshTask, task_complete, state_type}
use on_demand_service_broker.Lifecycle
use on_demand_service_broker.Lifecycle.{
  valid_pre_delete_op_type, task_is_not_done, should_skip_error, should_run_deprovision,
  has_run_all_errands, is_old_style_pre_delete, process_pre_delete, after_pre_delete,
}
use on_demand_service_broker.Lifecycle.Script.{IsDeletion, not_post_deploy}
use on_demand_service_broker.Broker.{Broker, deployment_name}
use on_demand_service_broker.Broker.LastOperation.{
  state_succeeded, plain_description, last_operation_state, construct_last_operation, conclude,
  delete_configs_and_secrets_after_delete, last_operation,
}

module _ (task : BoshTask) (older : List BoshTask) (d : OperationData) (deletion : IsDeletion d)
    (left : length (task ∷ older) < length d.errands) where
  old_style : is_old_style_pre_delete (task ∷ older) d ≡ false
  unfolding is_old_style_pre_delete
  old_style = elim (Bool-cases (nat_eq (length (task ∷ older)) 1)) [
    | inl e ↦ rw (e, deletion.present_style) refl
    | inr e ↦ rw e refl
  ]

  not_over :
      (should_run_deprovision (task ∷ older) d ≡ false)
      × (has_run_all_errands (task ∷ older) d ≡ false)
  unfolding should_run_deprovision has_run_all_errands
  not_over = (ground (arith, old_style, left), ground (arith, left))

  done_lem : state_type task ≡ task_complete → task_is_not_done task d.operation_type ≡ false
  unfolding task_is_not_done should_skip_error
  done_lem h = rw h refl

  module _ {W : Type 0} (b : Broker W) (instance_id : String) (errand : Errand) (w w1 w2 w3 w4 : W)
      (id : ℕ) (errand_task : BoshTask) where
    -- The errand that comes next is started, and its task is found to be done at once.
    pub record FinishesAtOnce : Type 0 where
      pub has_task : nat_eq d.bosh_task_id 0 ≡ false
      pub listed :
          b.bosh.get_normalised_tasks_by_context (deployment_name instance_id) d.bosh_context_id w
          ≡ (ok (task ∷ older), w1)
      pub newest_done : state_type task ≡ task_complete
      pub next_errand : get_elem? d.errands (length (task ∷ older)) ≡ some errand
      pub started :
          b.bosh.run_errand
            (deployment_name instance_id)
            errand.name
            errand.instances
            d.bosh_context_id
            w1
          ≡ (ok id, w2)
      pub read : b.bosh.get_task id w2 ≡ (ok errand_task, w3)
      pub errand_done : state_type errand_task ≡ task_complete
      pub cleaned :
          delete_configs_and_secrets_after_delete b instance_id d.operation_type errand_task w3
          ≡ (ok tt, w4)

    polled_lem :
        FinishesAtOnce
        → Lifecycle.get_task b.bosh (deployment_name instance_id) d w ≡ (ok errand_task, w3)
    unfolding Lifecycle.get_task process_pre_delete after_pre_delete Lifecycle.run_errand
    polled_lem f =
        rw
          (
            deletion.in_context,
            not_post_deploy d.operation_type deletion.deletes,
            deletion.deletes,
            f.listed,
            after_pre_delete,
            done_lem f.newest_done,
            not_over.0,
            not_over.1,
            f.next_errand,
            f.started,
            f.read,
          )
          refl

    -- In a deletion with errands left to run, when the next errand is started and its task is done
    -- by the time that it is read, and the configs and secrets are deleted without error, the
    -- deletion is reported as succeeded.
    pub last_operation_succeeds_early :
        FinishesAtOnce
        → last_operation b instance_id (some d) w ≡ (
          ok (record {
            state = state_succeeded;
            description = plain_description state_succeeded d.operation_type;
          }),
          w4,
        )
    unfolding last_operation conclude construct_last_operation last_operation_state
    last_operation_succeeds_early f = rw (f.has_task, polled_lem f, f.cleaned, f.errand_done) refl
