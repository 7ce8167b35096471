-- ===== src/Tests/Managing.antt =====
-- mgmtapi/api.go on a broker with one plan, and the trigger of an upgrade over it.
use on_demand_service_broker.Prelude.{
  ℕ, ◌≡◌, refl, none, some, List, [], ◌∷◌, String, Result, ok, In, inl, pure,
}
use on_demand_service_broker.Prelude.Int.{pos}
use on_demand_service_broker.Config.{ResourceQuota, Plan, find_by_id, find_plan_by_id}
use on_demand_service_broker.OperationData.{OperationData}
use on_demand_service_broker.IteratorState.Data.{Instance, in_progress, no_operation}
use on_demand_service_broker.Quotas.{CfServicePlan}
use on_demand_service_broker.Task.{Deployer}
use on_demand_service_broker.Task
use on_demand_service_broker.Lifecycle.Script.{done_task}
use on_demand_service_broker.Triggerers.{LastOperation, bosh_trigger_operation}
use on_demand_service_broker.Broker.Clients.{Clients}
use on_demand_service_broker.Broker.Uaa.{get_service_instance_client}
use on_demand_service_broker.MgmtApi.{json}
use on_demand_service_broker.MgmtApi.Metrics.{Metric, metrics}
use on_demand_service_broker.MgmtApi.Upgrading.{
  over_http, ReachesDeployer, busy, trigger_answers_obstacle,
}
use on_demand_service_broker.MgmtApi.Usage.{usage_of, instances_of}
use on_demand_service_broker.MgmtApi.Reported.{global_metric, ReportsKind, metrics_report_usage}
use on_demand_service_broker.Tests.Tasks.{deployer}
use on_demand_service_broker.Tests.Provisioning.{clients, small}

-- A director that is still busy with the deployment.
abbrev busy_deployer : Deployer ℕ
busy_deployer = record deployer { get_tasks_in_progress = λ _. pure (done_task ∷ []) }

abbrev busy_clients : Clients ℕ
busy_clients = record clients {
  deployer = record clients.deployer { upgrade = Task.upgrade busy_deployer };
}

abbrev instance_x : Instance
instance_x = record { guid = "x"; plan_unique_id = "small"; space_guid = "dev" }

abbrev not_asked : String → OperationData → ℕ → Result LastOperation × ℕ
not_asked guid d = pure (record { state = ""; description = "" })

reaches :
    ReachesDeployer busy_clients not_asked busy_deployer instance_x small "context" (some []) 0 0 0
unfolding find_plan_by_id get_service_instance_client
reaches = record {
  deploys = refl;
  names_plan = refl;
  has_plan = refl;
  has_context_id = refl;
  has_client = refl;
}

trigger_answers_obstacle_example :
    bosh_trigger_operation (over_http busy_clients not_asked) "upgrade" instance_x 0
    ≡ (ok (record no_operation { state = in_progress }), 0)
trigger_answers_obstacle_example =
    trigger_answers_obstacle busy_clients not_asked busy_deployer instance_x small "context"
      (some []) 0 0 0 in_progress 0 reaches (busy done_task [] 0 refl)

abbrev memory : ResourceQuota
memory = record { limit = 100; cost = 8 }

abbrev metered : Plan
metered = record small {
  quotas = record { service_instance_limit = some 5; resources = some (("memory", memory) ∷ []) };
}

abbrev counts : CfServicePlan × ℕ
counts = (record { unique_id = "small" }, 3)

abbrev metered_clients : Clients ℕ
metered_clients = record clients {
  broker = record clients.broker {
    service_offering = record clients.broker.service_offering {
      plans = metered ∷ [];
      global_quotas = record {
        service_instance_limit = none;
        resources = some (("memory", memory) ∷ []);
      };
    };
  };
  count_instances_of_service_offering = λ _. pure (counts ∷ []);
}

-- Three instances that cost 8 each.
metrics_report_usage_example :
    let offering = metered_clients.broker.service_offering in
    (ms : List Metric) × (metrics metered_clients 0 ≡ (ok (json ms), 0))
    × ReportsKind offering "memory" memory (usage_of offering "memory" (counts ∷ [])) ms
    × In (global_metric offering "total_instances" (pos (instances_of (counts ∷ [])))) ms
unfolding find_by_id
metrics_report_usage_example =
    metrics_report_usage metered_clients counts [] "memory" memory 0 0 refl ((metered, refl), tt)
      ((tt, tt), tt) (inl refl)
