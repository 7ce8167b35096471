-- ===== src/Tests/Deprovisioning.antt =====
-- broker/deprovision.go and broker/last_operation.go on an instance of a plan with two errands.
use on_demand_service_broker.Prelude.{
  ℕ, ◌+◌, ◌<◌, ◌≡◌, refl, ◌⊎◌, true, false, none, some, [], ◌∷◌, other, ok, err, arith, length,
  String, ◌==◌,
}
use on_demand_service_broker.Config.{
  Plan, no_plan, ServiceOffering, Quotas, find_plan_by_id, pre_delete_errands,
}
use on_demand_service_broker.OperationData.{OperationData, no_operation_data, delete}
use on_demand_service_broker.Bosh.{state_type}
use on_demand_service_broker.Lifecycle.{valid_pre_delete_op_type}
use on_demand_service_broker.Lifecycle.Script.{polled_times, scripted, done_task}
use on_demand_service_broker.Broker.{Broker, deployment_name}
use on_demand_service_broker.Broker.LastOperation.{
  state_succeeded, plain_description, last_operation, delete_configs_and_secrets_after_delete,
}
use on_demand_service_broker.Broker.LastOperation.Early.{
  FinishesAtOnce, last_operation_succeeds_early,
}
use on_demand_service_broker.Broker.Deprovision.{DeprovisionServiceSpec, deprovision}
use on_demand_service_broker.Broker.Deprovision.Commands.{
  Replies, recording, starts, deprovision_never_twice,
}
use on_demand_service_broker.Broker.Deprovision.Handover.{deprovision_runs_script}
use on_demand_service_broker.Tests.Deleting.{errand, deletion, deletion_kind}

abbrev pub no_quotas : Quotas
no_quotas = record { service_instance_limit = none; resources = none }

abbrev pub plan : Plan
plan = record no_plan {
  id = "small";
  lifecycle_errands =
      some (record { post_deploy = []; pre_delete = errand "drain" ∷ errand "backup" ∷ [] });
}

abbrev pub offering : ServiceOffering
offering = record {
  id = "service";
  name = "redis";
  global_properties = [];
  global_quotas = no_quotas;
  plans = plan ∷ [];
  maintenance_info = none;
}

-- A broker on which every call succeeds; the world is the number of commands sent.
abbrev pub smooth : Broker ℕ
smooth = record {
  expose_operational_errors = false;
  disable_bosh_configs = true;
  service_offering = offering;
  bosh = record {
    get_task = λ _ w. (ok done_task, w);
    get_normalised_tasks_by_context = λ _ _ w. (ok (done_task ∷ []), w);
    run_errand = λ _ _ _ _ w. (ok 5, w + 1);
    delete_deployment = λ _ _ _ w. (ok 6, w + 1);
  };
  get_info = λ w. (ok tt, w);
  get_deployment = λ _ w. (ok true, w);
  get_tasks_in_progress = λ _ w. (ok [], w);
  delete_configs = λ _ w. (ok tt, w);
  delete_secrets_for_instance = λ _ w. (ok tt, w);
  delete_client = λ _ w. (ok tt, w + 1);
  new_uuid = λ w. (ok "context", w);
}

abbrev answers : Replies
answers = record {
  info = ok tt;
  deployment = ok true;
  tasks = ok [];
  uuid = ok "context";
  errand = err (other "director down");
  deletion = ok 6;
  configs = ok tt;
  secrets = ok tt;
  client = ok tt;
}

deprovision_never_twice_example :
    let calls = (deprovision (recording answers false true offering) "x" "small" false true []).1 in
    (starts calls ≡ 0)
    ⊎ ((starts calls ≡ 1) × (answers.deployment ≡ ok true) × (answers.tasks ≡ ok []))
deprovision_never_twice_example =
    deprovision_never_twice "x" false true offering answers "small" false true

abbrev handed : OperationData
handed = record no_operation_data {
  operation_type = delete;
  bosh_task_id = 5;
  bosh_context_id = "context";
  errands = errand "drain" ∷ errand "backup" ∷ [];
}

abbrev handed_spec : DeprovisionServiceSpec
handed_spec = record { is_async = true; operation_data = some handed }

deprovisioned : deprovision smooth "x" "small" false true 0 ≡ (ok (handed_spec, none), 1)
unfolding deprovision
deprovisioned = refl

not_empty : (w : ℕ) (id : String) → (smooth.new_uuid w).0 ≡ ok id → id == "" ≡ false
not_empty w id e = cc

deprovision_runs_script_example :
    (d : OperationData) × (handed_spec.operation_data ≡ some d)
    × ((u : ℕ) × (smooth.bosh.run_errand (deployment_name "x") "drain" [] d.bosh_context_id u
          ≡ (ok d.bosh_task_id, 1)))
    × (let name = deployment_name "x" in
        (polled_times 3 name d
          (polled_times 2 name d (record { tasks = done_task ∷ []; commands = [] }))).commands
        ≡ scripted (errand "backup" ∷ []) false [])
unfolding find_plan_by_id pre_delete_errands
deprovision_runs_script_example =
    deprovision_runs_script smooth not_empty "x" "small" false true 0 1 handed_spec plan
      (errand "drain") (errand "backup" ∷ []) 3 deprovisioned refl refl

-- One of the two errands is left.
one_left : 1 < length deletion.errands
one_left = omega arith

finishes :
    FinishesAtOnce done_task [] deletion deletion_kind one_left smooth "x"
      (errand "backup")
      0
      0
      1
      1
      1
      5
      done_task
unfolding state_type delete_configs_and_secrets_after_delete valid_pre_delete_op_type
finishes = record {
  has_task = refl;
  listed = refl;
  newest_done = refl;
  next_errand = refl;
  started = refl;
  read = refl;
  errand_done = refl;
  cleaned = refl;
}

-- The world counts one command, the errand: the deployment is not deleted.
last_operation_succeeds_early_example : last_operation smooth "x" (some deletion) 0 ≡ (
  ok (record { state = state_succeeded; description = plain_description state_succeeded delete }),
  1,
)
last_operation_succeeds_early_example =
    last_operation_succeeds_early done_task [] deletion deletion_kind one_left smooth "x"
      (errand "backup") 0 0 1 1 1 5 done_task finishes
