-- ===== src/Broker/Deprovision/Handover.antt =====
-- On the operation data that broker/deprovision.go hands over, and what broker/lifecycle_runner.go makes
-- of it.
use on_demand_service_broker.Prelude.{
  ℕ, suc, ◌≡◌, refl, subst, Bool, true, false, none, some, List, [], ◌∷◌, length, String, ◌==◌, ok,
}
use on_demand_service_broker.Prelude.Answers.{Ends, next-Ends, follow-Ends, if-Ends, reached}
use on_demand_service_broker.Config.{Errand, Plan, find_plan_by_id, pre_delete_errands}
use on_demand_service_broker.OperationData.{OperationData}
use on_demand_service_broker.Lifecycle.{valid_pre_delete_op_type, should_force_delete}
use on_demand_service_broker.Lifecycle.Script.{
  IsDeletion, polled_times, done_task, scripted, deletion_runs_script,
}
use on_demand_service_broker.Broker.{Broker, deployment_name}
use on_demand_service_broker.Broker.Deprovision.{
  DeprovisionServiceSpec, Returned, get_operation_type, deprovision, start_deletion, when_found,
  run_pre_delete_errands, deprovision_not_found, not_found_after_secrets, assert_deployment_exists,
  assert_no_operations_in_progress, clear_secrets_for_not_found_instance,
  delete_configs_for_not_found_instance,
}

is_deletion : (force : Bool) → valid_pre_delete_op_type (get_operation_type force) ≡ true
unfolding valid_pre_delete_op_type get_operation_type
is_deletion true = refl
is_deletion false = refl

keeps_force : (force : Bool) → should_force_delete (get_operation_type force) ≡ force
unfolding should_force_delete get_operation_type
keeps_force true = refl
keeps_force false = refl

module _ {W : Type 0} (b : Broker W) (instance_id : String) (force : Bool) (first : Errand)
    (rest : List Errand) where
  -- The first errand was started as the last call, and the data is that of its task and of the others.
  pub record Hands (d : OperationData) (v : W) : Type 0 where
    pub deletes : d.operation_type ≡ get_operation_type force
    pub all_errands : d.errands ≡ first ∷ rest
    pub present_style : d.pre_delete_errand.name ≡ ""
    pub unique : (u : W) × ((b.new_uuid u).0 ≡ ok d.bosh_context_id)
    pub started :
        (u : W) × (b.bosh.run_errand
            (deployment_name instance_id)
            first.name
            first.instances
            d.bosh_context_id
            u
          ≡ (ok d.bosh_task_id, v))

  abbrev HandsOver : DeprovisionServiceSpec → W → Type 0
  HandsOver spec v = (d : OperationData) × (spec.operation_data ≡ some d) × Hands d v

  abbrev Succeeds : Returned → W → Type 0
  Succeeds (spec, none) v = HandsOver spec v
  Succeeds (spec, some e) v = Unit

  run-Ends :
      (w : W)
      → Ends HandsOver
          (run_pre_delete_errands b instance_id first rest (get_operation_type force) w)
  unfolding run_pre_delete_errands
  run-Ends w = next-Ends HandsOver (b.new_uuid w) _ λ context u e.
      follow-Ends HandsOver
        (b.bosh.run_errand (deployment_name instance_id) first.name first.instances context u) _ _
        (λ _ _. tt)
        λ task_id v started. (
          _,
          refl,
          record {
            deletes = refl;
            all_errands = refl;
            present_style = refl;
            unique = (w, cc);
            started = (u, started);
          },
        )

  start-Ends :
      (w : W)
      → Ends Succeeds (start_deletion b instance_id (get_operation_type force) (first ∷ rest) w)
  unfolding start_deletion
  start-Ends w =
      let run = run_pre_delete_errands b instance_id first rest (get_operation_type force) w in
      follow-Ends Succeeds run _ _ (λ _ _. tt)
        (λ spec v e. reached HandsOver run spec v (run-Ends w) e)

  secrets-Ends : (w : W) → Ends Succeeds (not_found_after_secrets b instance_id w)
  unfolding not_found_after_secrets
  secrets-Ends w =
      follow-Ends Succeeds (clear_secrets_for_not_found_instance b instance_id w) _ _ (λ _ _. tt)
        (λ _ _ _. tt)

  not_found-Ends : (w : W) → Ends Succeeds (deprovision_not_found b instance_id w)
  unfolding deprovision_not_found
  not_found-Ends w = if-Ends Succeeds b.disable_bosh_configs _ _ w (secrets-Ends w) (
      follow-Ends Succeeds (delete_configs_for_not_found_instance b instance_id w) _ _ (λ _ _. tt)
        (λ _ v _. secrets-Ends v))

  module _ (plan_id : String) (plan : Plan)
      (known : find_plan_by_id b.service_offering plan_id ≡ some plan)
      (errands : pre_delete_errands plan ≡ first ∷ rest) where
    found-Ends :
        (found : Bool) (w : W) → Ends Succeeds (when_found b instance_id plan_id force found w)
    unfolding when_found
    found-Ends false w = not_found-Ends w
    found-Ends true w =
        follow-Ends Succeeds (assert_no_operations_in_progress b instance_id w) _ _ (λ _ _. tt)
          (λ _ v _. rw (known, errands) (start-Ends v))

    deprovision-Ends :
        (async_allowed : Bool) (w : W)
        → Ends Succeeds (deprovision b instance_id plan_id force async_allowed w)
    unfolding deprovision
    deprovision-Ends false w = tt
    deprovision-Ends true w =
        follow-Ends Succeeds (b.get_info w) _ _ (λ _ _. tt)
          λ _ u _.
            follow-Ends Succeeds (assert_deployment_exists b instance_id u) _ _ (λ _ _. tt)
              (λ found v _. found-Ends found v)

  script_of :
      ((w : W) (id : String) → (b.new_uuid w).0 ≡ ok id → id == "" ≡ false)
      → (d : OperationData) (v : W) (extra : ℕ) → Hands d v
      → let name = deployment_name instance_id in
        (polled_times extra name d (
          polled_times
            (suc (length rest))
            name
            d
            (record { tasks = done_task ∷ []; commands = [] }))).commands
        ≡ scripted rest force []
  script_of uuids d v extra h =
      let deletion : IsDeletion d = record {
        deletes = rw h.deletes (is_deletion force);
        in_context = uuids h.unique.0 d.bosh_context_id h.unique.1;
        present_style = h.present_style;
      } in
      let forced : should_force_delete d.operation_type ≡ force =
        rw h.deletes (keeps_force force) in
      subst
        (λ f.
          (polled_times extra (deployment_name instance_id) d (
            polled_times (suc (length rest)) (deployment_name instance_id) d
              (record { tasks = done_task ∷ []; commands = [] }))).commands
          ≡ scripted rest f [])
        forced
        (deletion_runs_script (deployment_name instance_id) d deletion first rest extra
          h.all_errands)

-- When a deprovision returns no error, for a plan with pre-delete errands, its last call has
-- started the first of them; the operation data that it hands over makes the later polls run the
-- other errands in order, each once, and then delete the deployment, once, by force if that was
-- asked for, and send nothing else, however often they come after that. The unique identifiers are
-- not empty, and every task is done before the next poll.
pub deprovision_runs_script :
    {W : Type 0} (b : Broker W)
    → ((w : W) (id : String) → (b.new_uuid w).0 ≡ ok id → id == "" ≡ false)
    → (instance_id plan_id : String) (force async_allowed : Bool) (w v : W)
      (spec : DeprovisionServiceSpec) (plan : Plan) (first : Errand) (rest : List Errand)
      (extra : ℕ)
    → deprovision b instance_id plan_id force async_allowed w ≡ (ok (spec, none), v)
    → find_plan_by_id b.service_offering plan_id ≡ some plan
    → pre_delete_errands plan ≡ first ∷ rest
    → (d : OperationData) × (spec.operation_data ≡ some d)
      × ((u : W) × (b.bosh.run_errand
              (deployment_name instance_id)
              first.name
              first.instances
              d.bosh_context_id
              u
            ≡ (ok d.bosh_task_id, v)))
      × (let name = deployment_name instance_id in
          (polled_times extra name d (
            polled_times
              (suc (length rest))
              name
              d
              (record { tasks = done_task ∷ []; commands = [] }))).commands
          ≡ scripted rest force [])
deprovision_runs_script b uuids instance_id plan_id force async_allowed w v spec plan first rest
      extra e known errands =
    let (d, given, h) =
      reached (Succeeds b instance_id force first rest)
        (deprovision b instance_id plan_id force async_allowed w) (spec, none) v
        (deprovision-Ends b instance_id force first rest plan_id plan known errands async_allowed w)
        e in
    (d, given, h.started, script_of b instance_id force first rest uuids d v extra h)
