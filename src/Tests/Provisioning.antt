-- ===== src/Tests/Provisioning.antt =====
-- broker/provision.go, with the deployer of task/task.go, on a plan with one post-deploy errand.
use on_demand_service_broker.Prelude.{
  ℕ, ◌≡◌, ◌≤◌, refl, ◌⊎◌, ◌==◌, true, false, none, some, List, [], ◌∷◌, String, ok, pure, arith,
  length,
}
use on_demand_service_broker.Prelude.Worlds.{Keeps-still}
use on_demand_service_broker.Json.{Object, end, field, text, object}
use on_demand_service_broker.Config.{
  LifecycleErrands, Plan, no_plan, find_plan_by_id, post_deploy_errands,
}
use on_demand_service_broker.Decider.{Service}
use on_demand_service_broker.Task
use on_demand_service_broker.Lifecycle.Script.{polled_times, done_task}
use on_demand_service_broker.Lifecycle.PostDeploy.{all_run}
use on_demand_service_broker.Broker.{deployment_name}
use on_demand_service_broker.Broker.Clients.{CatalogInfo, ServiceSchemas, Binding, Clients}
use on_demand_service_broker.Broker.Provision.{
  absent, ProvisionDetails, ProvisionedServiceSpec, created_spec, provision,
}
use on_demand_service_broker.Broker.Provision.Counting.{CountsCreations}
use on_demand_service_broker.Broker.Provision.Accepted.{IsAccepted, provision_guarded}
use on_demand_service_broker.Broker.Provision.Handover.{provision_runs_errands}
use on_demand_service_broker.Tests.Deleting.{errand}
use on_demand_service_broker.Tests.Deprovisioning.{smooth}
use on_demand_service_broker.Tests.Tasks.{deployer}

abbrev errands : LifecycleErrands
errands = record { post_deploy = errand "migrate" ∷ []; pre_delete = [] }

abbrev pub small : Plan
small = record no_plan { id = "small"; lifecycle_errands = some errands }

abbrev pub catalog : List (Service CatalogInfo)
catalog = record { plans = record { id = "small"; maintenance_info = none } ∷ [] } ∷ []

abbrev schemas : ServiceSchemas
schemas = record { instance_create = end; instance_update = end; binding_create = end }

abbrev pub binding : Binding
binding = record {
  credentials = end;
  syslog_drain_url = "";
  route_service_url = "";
  backup_agent_url = "";
}

-- No instance is deployed yet; the world is the number of tasks started.
abbrev pub clients : Clients ℕ
clients = record {
  broker = record smooth {
    service_offering = record smooth.service_offering { plans = small ∷ [] };
  };
  adapter = record {
    create_binding = λ _ _ _ _ _ _. pure binding;
    delete_binding = λ _ _ _ _ _ _. pure tt;
    generate_dashboard_url = λ _ _ _. pure "https://dashboard";
    generate_plan_schema = λ _. pure schemas;
  };
  deployer = record {
    create = Task.create deployer;
    update = Task.update deployer;
    upgrade = Task.upgrade deployer;
    recreate = Task.recreate deployer;
  };
  uaa = record {
    has_client_definition = true;
    create_client = λ _ _ _. pure (some []);
    update_client = λ _ _ _. pure (some []);
    get_client = λ _. pure none;
  };
  enable_plan_schemas = false;
  support_backup_agent_binding = false;
  get_manifest = λ _. pure ("", false);
  get_deployments = pure [];
  vms = λ _. pure "";
  variables = λ _. pure [];
  get_dns_addresses = λ _ _. pure [];
  resolve_manifest_secrets = λ _ _. pure [];
  count_instances_of_service_offering = λ _. pure [];
  instances = pure [];
  hash = λ _. "";
  equals = λ _ _. true;
  conforms = λ _. true;
  validate = λ _ _. ok true;
  cached_catalog = λ _. some catalog;
  cache_catalog = λ _ w. w;
}

abbrev pub context : Object
context = field "instance_name" (text "cache") (field "space_guid" (text "dev") end)

abbrev details : ProvisionDetails
details = record {
  plan_id = "small";
  maintenance_info = none;
  raw_parameters = absent;
  as_map = ok (field "context" (object context) end);
}

counts : CountsCreations clients (λ w. w)
unfolding Task.create Task.do_deploy Task.assert_no_operations_in_progress Task.store_configs
    Task.update_configs
counts = record {
  create_one = λ _ _ _ _ _ w. omega arith;
  cache_none = λ _ _. refl;
  schema_none = λ _. Keeps-still _ _;
  url_none = λ _ _ _. Keeps-still _ _;
  info_none = Keeps-still _ _;
  uuid_none = Keeps-still _ _;
  manifest_none = λ _. Keeps-still _ _;
  instances_none = λ _. Keeps-still _ _;
  create_client_none = λ _ _ _. Keeps-still _ _;
  update_client_none = λ _ _ _. Keeps-still _ _;
}

provision_guarded_example :
    let v = (provision clients "x" details true 0).1 in
    (v ≤ 1) × ((v ≡ 0) ⊎ IsAccepted clients (λ w. w) counts "x" details)
provision_guarded_example = provision_guarded clients (λ w. w) counts "x" details true 0

abbrev spec : ProvisionedServiceSpec
spec =
    created_spec clients small "context"
      (record { task_id = 0; deployed_manifest = "new"; deployed_labels = end }) "https://dashboard"

provisioned : provision clients "x" details true 0 ≡ (ok spec, 1)
unfolding provision Task.create
provisioned = refl

not_empty : (w : ℕ) (id : String) → (clients.broker.new_uuid w).0 ≡ ok id → id == "" ≡ false
not_empty w id e = cc

provision_runs_errands_example :
    let d = spec.operation_data in
    let name = deployment_name "x" in
    (polled_times 2 name d (
      polled_times
        (length (post_deploy_errands small))
        name
        d
        (record { tasks = done_task ∷ []; commands = [] }))).commands
    ≡ all_run (post_deploy_errands small) []
unfolding find_plan_by_id
provision_runs_errands_example =
    provision_runs_errands clients not_empty "x" details true 0 1 spec small errands 2 provisioned
      refl refl
