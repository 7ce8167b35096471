-- ===== src/Task.antt =====
-- task/task.go: the deployments of service instances. The clients of BOSH and of CredHub and the
-- manifest generator are calls on a world; yaml.Unmarshal is a function that may fail. A nil map is
-- the empty one where the code does not tell them apart. Lines for the log are left out.
pub mod Manifests
pub mod Generator
pub mod Starting
pub mod Idle
pub mod Pending
pub mod Plain
use on_demand_service_broker.Prelude.{
  ℕ, ltb, length, Bool, true, false, not, ◌&&◌, Option, none, some, List, [], ◌∷◌, String, Error,
  other, wrapped, typed, Result, ok, err, panic, Io, ◌>>=◌, pure, fail, try, or_panic,
  if◌then◌else◌,
}
use on_demand_service_broker.Prelude.Dict.{Dict, insert}
use on_demand_service_broker.Json.{Object, end, Value}
use on_demand_service_broker.Config.{Plan}
use on_demand_service_broker.Bosh.{BoshTask}
use on_demand_service_broker.Task.Manifests.{BoshManifest, manifests_are_the_same}

-- boshdirector.BoshConfig
pub record BoshConfig : Type 0 where
  pub config_type : String
  pub config_name : String
  pub content : String

pub record GenerateManifestProperties : Type 0 where
  pub deployment_name : String
  pub plan_id : String
  pub request_params : Object
  pub old_manifest : String
  pub previous_plan_id : Option String
  pub secrets_map : Dict String
  pub previous_configs : Dict String
  pub uaa_client : Option (Dict String)

-- serviceadapter.MarshalledGenerateManifest of the SDK.
pub record GeneratedManifest : Type 0 where
  pub manifest : String
  pub odb_managed_secrets : Dict Value
  pub configs : Dict String
  pub labels : Object

-- broker.ManifestSecret
pub record ManifestSecret : Type 0 where
  pub name : String
  pub path : String
  pub value : Value

pub record Deployer (W : Type 0) : Type 0 where
  pub deploy : (manifest context_id : String) → Io W ℕ
  pub recreate_deployment : (deployment context_id : String) → Io W ℕ
  pub get_tasks_in_progress : String → Io W (List BoshTask)
  -- the manifest and whether the deployment is found
  pub get_deployment : String → Io W (String × Bool)
  pub get_configs : String → Io W (List BoshConfig)
  pub update_config : (config_type config_name content : String) → Io W (Unit {0})
  pub generate_manifest : GenerateManifestProperties → Io W GeneratedManifest
  pub generate_secret_paths : (deployment manifest : String) → Dict Value → List ManifestSecret
  pub replace_odb_refs : String → List ManifestSecret → String
  -- a nil bulk setter is `none`
  pub bulk_set : Option (List ManifestSecret → Io W (Unit {0}))
  pub unmarshal : String → Result BoshManifest
  pub disable_bosh_configs : Bool
  pub skip_check_for_pending_changes : Bool

-- The number of the task, the manifest and the labels.
pub record Deployed : Type 0 where
  pub task_id : ℕ
  pub deployed_manifest : String
  pub deployed_labels : Object

abbrev pub properties : String → String → Object → Option (Dict String) → GenerateManifestProperties
properties deployment plan_id params uaa_client = record {
  deployment_name = deployment;
  plan_id = plan_id;
  request_params = params;
  old_manifest = "";
  previous_plan_id = none;
  secrets_map = [];
  previous_configs = [];
  uaa_client = uaa_client;
}

unfoldable pub config_map : Dict String → List BoshConfig → Dict String
unfolding insert
config_map configs [] = configs
config_map configs (c ∷ cs) = config_map (insert c.config_type c.content configs) cs

module _ {W : Type 0} (d : Deployer W) where
  abbrev idle_or_fail : List BoshTask → Io W (Unit {0})
  idle_or_fail [] = pure tt
  idle_or_fail (task ∷ tasks) = fail (typed "TaskInProgressError" (other "task in progress"))

  unfoldable pub assert_no_operations_in_progress : String → Io W (Unit {0})
  assert_no_operations_in_progress deployment =
      try (d.get_tasks_in_progress deployment)
        (λ e. fail (typed "ServiceError" (wrapped "error getting tasks for deployment" e)))
        idle_or_fail

  abbrev found_or_fail : String × Bool → Io W String
  found_or_fail (manifest, true) = pure manifest
  found_or_fail (manifest, false) =
      fail (typed "DeploymentNotFoundError" (other "bosh deployment not found"))

  unfoldable pub get_deployment_manifest : String → Io W String
  get_deployment_manifest deployment = d.get_deployment deployment >>= found_or_fail

  unfoldable pub get_config_map : String → Io W (Dict String)
  unfolding config_map
  get_config_map deployment = d.get_configs deployment >>= λ configs. pure (config_map [] configs)

  -- `if !d.DisableBoshConfigs { oldConfigs, err = d.getConfigMap(...) }`
  unfoldable pub get_old_configs : String → Io W (Dict String)
  unfolding get_config_map
  get_old_configs deployment = if d.disable_bosh_configs then pure [] else get_config_map deployment

  abbrev unless_pending : Bool → Io W (Unit {0})
  unless_pending true = pure tt
  unless_pending false =
      fail (typed "PendingChangesNotAppliedError" (other "There are pending changes"))

  unfoldable pub check_for_pending_changes :
      String → Option String → String → Dict String → Dict String → Io W (Unit {0})
  unfolding manifests_are_the_same
  check_for_pending_changes deployment previous_plan_id old_manifest old_secrets previous_configs =
      or_panic previous_plan_id >>= λ previous.
      d.generate_manifest (record (properties deployment previous end none) {
        old_manifest = old_manifest;
        previous_plan_id = previous_plan_id;
        secrets_map = old_secrets;
        previous_configs = previous_configs;
      })
      >>= λ regenerated.
          (λ w. (manifests_are_the_same d.unmarshal regenerated.manifest old_manifest, w))
          >>= unless_pending

  -- The manifest with the references to the secrets that the adapter generated.
  abbrev store_secrets :
      Option (List ManifestSecret → Io W (Unit {0})) → String → GeneratedManifest → Io W String
  store_secrets none deployment generated = pure generated.manifest
  store_secrets (some bulk_set) deployment generated =
      let secrets =
        d.generate_secret_paths deployment generated.manifest generated.odb_managed_secrets in
      bulk_set secrets >>= λ _. pure (d.replace_odb_refs generated.manifest secrets)

  unfoldable pub update_configs : String → Dict String → Io W (Unit {0})
  update_configs deployment [] = pure tt
  update_configs deployment ((config_type, content) ∷ configs) =
      try (d.update_config config_type deployment content)
        (λ e. fail (wrapped "error updating config" e)) (λ _. update_configs deployment configs)

  unfoldable pub store_configs : String → Dict String → Io W (Unit {0})
  unfolding update_configs
  store_configs deployment configs =
      if d.disable_bosh_configs && ltb 0 (length configs)
      then fail (other "adapter returned bosh configs but feature is turned off")
      else if d.disable_bosh_configs
      then pure tt
      else update_configs deployment configs

  unfoldable pub do_deploy : GenerateManifestProperties → String → Io W Deployed
  unfolding store_configs
  do_deploy props context_id = d.generate_manifest props >>= λ generated.
      store_secrets d.bulk_set props.deployment_name generated >>= λ manifest.
      store_configs props.deployment_name generated.configs >>= λ _.
      try (d.deploy manifest context_id) (λ e. fail (wrapped "error deploying instance" e))
        (λ task_id. pure (record {
          task_id = task_id;
          deployed_manifest = manifest;
          deployed_labels = generated.labels;
        }))

  unfoldable pub create : String → String → Object → String → Option (Dict String) → Io W Deployed
  unfolding assert_no_operations_in_progress do_deploy
  create deployment plan_id params context_id uaa_client =
      assert_no_operations_in_progress deployment >>= λ _.
      do_deploy (properties deployment plan_id params uaa_client) context_id

  unfoldable pub upgrade : String → Plan → Object → String → Option (Dict String) → Io W Deployed
  unfolding assert_no_operations_in_progress get_deployment_manifest get_old_configs do_deploy
  upgrade deployment plan params context_id uaa_client =
      assert_no_operations_in_progress deployment >>= λ _.
      get_deployment_manifest deployment >>= λ old_manifest.
      get_old_configs deployment >>= λ old_configs.
      do_deploy
        (record (properties deployment plan.id params uaa_client) {
          old_manifest = old_manifest;
          previous_plan_id = some plan.id;
          previous_configs = old_configs;
        })
        context_id

  unfoldable pub recreate : String → String → String → Io W ℕ
  unfolding assert_no_operations_in_progress
  recreate deployment plan_id context_id = assert_no_operations_in_progress deployment >>= λ _.
      d.recreate_deployment deployment context_id

  unfoldable pub check_unless_skipped :
      String → Option String → String → Dict String → Dict String → Io W (Unit {0})
  unfolding check_for_pending_changes
  check_unless_skipped deployment previous_plan_id old_manifest old_secrets old_configs =
      if d.skip_check_for_pending_changes
      then pure tt
      else check_for_pending_changes deployment previous_plan_id old_manifest old_secrets
          old_configs

  unfoldable pub update :
      String
      → String
      → Object
      → Option String
      → String
      → Dict String
      → Option (Dict String)
      → Io W Deployed
  unfolding assert_no_operations_in_progress get_deployment_manifest get_old_configs
      check_unless_skipped do_deploy
  update deployment plan_id params previous_plan_id context_id old_secrets uaa_client =
      assert_no_operations_in_progress deployment >>= λ _.
      get_deployment_manifest deployment >>= λ old_manifest.
      get_old_configs deployment >>= λ old_configs.
      check_unless_skipped deployment previous_plan_id old_manifest old_secrets old_configs >>= λ _.
      do_deploy
        (record (properties deployment plan_id params uaa_client) {
          old_manifest = old_manifest;
          previous_plan_id = previous_plan_id;
          secrets_map = old_secrets;
          previous_configs = old_configs;
        })
        context_id
