-- ===== src/Broker/Clients.antt =====
-- broker/broker.go: the rest of the clients that the broker's operations call, and the fields of the
-- broker that only these operations read. The mutexes are held for the whole of an operation, so
-- its calls stand in a row.
use on_demand_service_broker.Prelude.{ℕ, Bool, Option, List, String, Result, Io}
use on_demand_service_broker.Prelude.Dict.{Dict}
use on_demand_service_broker.Json.{Object}
use on_demand_service_broker.Config.{Plan, BindingDns, AdapterPlan}
use on_demand_service_broker.Decider.{Service}
use on_demand_service_broker.Quotas.{CfServicePlan}
use on_demand_service_broker.Task.{Deployed}
use on_demand_service_broker.Broker.{Broker}

-- domain.MaintenanceInfo of brokerapi.
pub record CatalogInfo : Type 0 where
  pub public : Dict String
  pub private : String
  pub version : String
  pub description : String

-- domain.ServiceSchemas of brokerapi.
pub record ServiceSchemas : Type 0 where
  pub instance_create : Object
  pub instance_update : Object
  pub binding_create : Object

-- serviceadapter.Binding of the SDK.
pub record Binding : Type 0 where
  pub credentials : Object
  pub syslog_drain_url : String
  pub route_service_url : String
  pub backup_agent_url : String

-- ServiceAdapterClient. The VMs of a deployment are kept as text.
pub record AdapterClient (W : Type 0) : Type 0 where
  pub create_binding :
      (binding_id vms manifest : String)
      → Object
      → (secrets dns_addresses : Dict String) → Io W Binding
  pub delete_binding :
      (binding_id vms manifest : String)
      → Object
      → (secrets dns_addresses : Dict String) → Io W (Unit {0})
  pub generate_dashboard_url :
      (instance_id : String) → AdapterPlan → (manifest : String) → Io W String
  pub generate_plan_schema : AdapterPlan → Io W ServiceSchemas

-- The broker's interface Deployer, which task/task.go implements.
pub record DeployerClient (W : Type 0) : Type 0 where
  pub create : String → String → Object → String → Option (Dict String) → Io W Deployed
  pub update :
      String
      → String
      → Object
      → Option String
      → String
      → Dict String
      → Option (Dict String)
      → Io W Deployed
  pub upgrade : String → Plan → Object → String → Option (Dict String) → Io W Deployed
  pub recreate : String → String → String → Io W ℕ

-- UAAClient, without DeleteClient; a nil client is `none`.
pub record UaaClient (W : Type 0) : Type 0 where
  pub has_client_definition : Bool
  pub create_client : (id name space_guid : String) → Io W (Option (Dict String))
  pub update_client : (id redirect_uri space_guid : String) → Io W (Option (Dict String))
  pub get_client : String → Io W (Option (Dict String))

pub record Clients (W : Type 0) : Type 0 where
  pub broker : Broker W
  pub adapter : AdapterClient W
  pub deployer : DeployerClient W
  pub uaa : UaaClient W
  pub enable_plan_schemas : Bool
  pub support_backup_agent_binding : Bool
  -- GetDeployment, with the manifest
  pub get_manifest : String → Io W (String × Bool)
  pub get_deployments : Io W (List String)
  pub vms : String → Io W String
  pub variables : String → Io W (List String)
  pub get_dns_addresses : String → List BindingDns → Io W (Dict String)
  pub resolve_manifest_secrets :
      (manifest : String) → (variables : List String) → Io W (Dict String)
  pub count_instances_of_service_offering : String → Io W (List (CfServicePlan × ℕ))
  -- the GUIDs of the instances
  pub instances : Io W (List String)
  pub hash : Dict String → String
  -- MaintenanceInfo.Equals of brokerapi
  pub equals : CatalogInfo → CatalogInfo → Bool
  -- gojsonschema: whether a schema conforms, and whether parameters are valid, which may fail
  pub conforms : Object → Bool
  pub validate : (schema params : Object) → Result Bool
  -- the field cachedCatalog, `none` for nil
  pub cached_catalog : W → Option (List (Service CatalogInfo))
  pub cache_catalog : List (Service CatalogInfo) → W → W
