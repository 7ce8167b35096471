-- ===== src/Tests/Deleting.antt =====
-- broker/lifecycle_runner.go on a deletion and a creation with two errands.
use mathlib.Core.Logic.{◌≢◌}
use on_demand_service_broker.Prelude.{◌≡◌, refl, false, [], ◌∷◌, String, panic}
use on_demand_service_broker.Config.{Errand}
use on_demand_service_broker.OperationData.{OperationData, create, delete, no_operation_data}
use on_demand_service_broker.Lifecycle.{
  valid_post_deploy_op_type, valid_pre_delete_op_type, should_force_delete, get_task,
}
use on_demand_service_broker.Lifecycle.Polls.{IsSteady, get_task_never_panics}
use on_demand_service_broker.Lifecycle.PostDeploy.{IsDeployment, all_run, deployment_runs_script}
use on_demand_service_broker.Lifecycle.Script.{
  errand_run, deployment_deleted, Director, director, done_task, polled_times, scripted, IsDeletion,
  deletion_runs_script,
}

abbrev pub errand : String → Errand
errand name = record { name = name; instances = [] }

abbrev pub deletion : OperationData
deletion = record no_operation_data {
  bosh_task_id = 1;
  bosh_context_id = "context";
  operation_type = delete;
  errands = errand "drain" ∷ errand "backup" ∷ [];
}

abbrev started : Director
started = record { tasks = done_task ∷ []; commands = [] }

director-IsSteady : IsSteady director
director-IsSteady = record {
  task = λ id w p. cc;
  tasks = λ d c w p. cc;
  errand = λ d n i c w p. cc;
  deletion = λ d c f w p. cc;
}

pub deletion_kind : IsDeletion deletion
unfolding valid_pre_delete_op_type
deletion_kind = record { deletes = refl; in_context = refl; present_style = refl }

get_task_never_panics_example : (get_task director "dep" deletion started).0 ≢ panic
get_task_never_panics_example =
    get_task_never_panics director director-IsSteady "dep" deletion started

deletion_runs_script_example :
    (polled_times 3 "dep" deletion (polled_times 2 "dep" deletion started)).commands
    ≡ scripted (errand "backup" ∷ []) (should_force_delete delete) []
deletion_runs_script_example =
    deletion_runs_script "dep" deletion deletion_kind (errand "drain") (errand "backup" ∷ []) 3 refl

deletion_run :
    (polled_times 2 "dep" deletion started).commands
    ≡ deployment_deleted false ∷ errand_run "backup" [] ∷ []
unfolding get_task
deletion_run = refl

abbrev creation : OperationData
creation = record no_operation_data {
  bosh_task_id = 1;
  bosh_context_id = "context";
  operation_type = create;
  errands = errand "migrate" ∷ errand "smoke" ∷ [];
}

creation_kind : IsDeployment creation
unfolding valid_post_deploy_op_type
creation_kind = record { deploys = refl; in_context = refl; present_style = refl }

deployment_runs_script_example :
    (polled_times 3 "dep" creation (polled_times 2 "dep" creation started)).commands
    ≡ all_run (errand "migrate" ∷ errand "smoke" ∷ []) []
deployment_runs_script_example = deployment_runs_script "dep" creation creation_kind 3
