-- ===== src/Director.antt =====
-- boshdirector/get_task.go, get_tasks.go, tasks.go, get_deployment.go, bosh_configs.go, links_api.go, run_errand.go and
-- delete_deployment.go of the same directory: the client of the BOSH director, over the calls of the
-- BOSH CLI library. A task that is started runs beside the broker; the client waits for its number
-- or an error, which is the answer of the call that starts it.
pub mod Tasks
pub mod Configs
pub mod Addresses
pub mod Links
pub mod Errands
use on_demand_service_broker.Prelude.{
  ℕ, nat_eq, length, Bool, true, false, ◌==◌, Option, none, some, List, [], ◌∷◌, String, other,
  wrapped, Io, ◌>>=◌, pure, fail, try, if◌then◌else◌,
}
use on_demand_service_broker.Prelude.Dict.{Dict, insert}
use on_demand_service_broker.Config.{BindingDns}
use on_demand_service_broker.Bosh.{
  BoshTask, TaskStateType, task_complete, task_incomplete, task_failed, task_unknown, state_type,
  is_complete, BoshClient,
}
use on_demand_service_broker.Task.{BoshConfig}

-- director.Task of the library, as far as it is read.
pub record DirectorTask : Type 0 where
  pub task : BoshTask
  pub deployment : String

-- director.Director and DNSRetriever; `build` makes the former. A deployment is its name.
pub record Director (W : Type 0) : Type 0 where
  pub build : Io W (Unit {0})
  pub current_tasks : (deployment : String) → Io W (List DirectorTask)
  pub find_tasks_by_context_id : String → Io W (List DirectorTask)
  pub find_task : ℕ → Io W DirectorTask
  -- the exit code in the output of a task, `none` where the output cannot be decoded
  pub result_output : ℕ → Io W (Option ℕ)
  pub list_deployments : Io W (List String)
  pub find_deployment : String → Io W (Unit {0})
  pub manifest : String → Io W String
  pub list_configs : (name : String) → Io W (List BoshConfig)
  pub update_config : (config_type name content : String) → Io W (Unit {0})
  pub delete_config : (config_type name : String) → Io W Bool
  pub start_errand :
      String → (errand : String) (instances : List String) (context_id : String) → Io W ℕ
  pub start_delete : String → (context_id : String) (force : Bool) → Io W ℕ
  -- NewInstanceGroupOrInstanceSlugFromString
  pub is_slug : String → Bool
  pub link_provider_id : (deployment instance_group provider : String) → Io W String
  pub create_link_consumer : (provider_id : String) → Io W String
  pub get_link_address : (consumer_id : String) (azs : List String) (status : String) → Io W String
  pub delete_link_consumer : (consumer_id : String) → Io W (Unit {0})

abbrev same_type : TaskStateType → TaskStateType → Bool
same_type task_complete task_complete = true
same_type task_incomplete task_incomplete = true
same_type task_failed task_failed = true
same_type task_unknown task_unknown = true
same_type _ _ = false

unfoldable pub find_tasks_in_states : TaskStateType → List BoshTask → List BoshTask
unfolding state_type
find_tasks_in_states kind [] = []
find_tasks_in_states kind (t ∷ ts) =
    let found = find_tasks_in_states kind ts in
    if same_type (state_type t) kind then t ∷ found else found

unfoldable pub done_tasks : List BoshTask → List BoshTask
unfolding find_tasks_in_states
done_tasks ts = find_tasks_in_states task_complete ts

unfoldable pub all_tasks_are_done : List BoshTask → Bool
unfolding done_tasks
all_tasks_are_done ts = nat_eq (length (done_tasks ts)) (length ts)

abbrev tasks_of : List DirectorTask → List BoshTask
tasks_of [] = []
tasks_of (t ∷ ts) = t.task ∷ tasks_of ts

module _ {W A : Type 0} where
  -- errors.Wrap
  abbrev pub wrapping : String → Io W A → Io W A
  wrapping message call = try call (λ e. fail (wrapped message e)) pure

-- Output that cannot be decoded leaves the zero value.
abbrev pub exit_code_of : Option ℕ → ℕ
exit_code_of none = 0
exit_code_of (some code) = code

module _ {W : Type 0} (d : Director W) where
  abbrev pub built : Io W (Unit {0})
  built = wrapping "Failed to build director" d.build

  unfoldable pub get_tasks_in_progress : String → Io W (List BoshTask)
  get_tasks_in_progress deployment = built >>= λ _.
      wrapping "Could not fetch current tasks for deployment" (d.current_tasks deployment) >>= λ ts.
      pure (tasks_of ts)

  unfoldable pub get_task : ℕ → Io W BoshTask
  get_task task_id =
      built >>= λ _. wrapping "Cannot find task with ID" (d.find_task task_id) >>= λ t. pure t.task

  unfoldable pub get_task_output : ℕ → Io W ℕ
  get_task_output task_id = built >>= λ _.
      wrapping "Could not fetch task with id" (d.find_task task_id) >>= λ t.
      wrapping "Could not fetch task output" (d.result_output t.task.id) >>= λ output.
      pure (exit_code_of output)

  unfoldable pub fetch_task_state : BoshTask → Io W String
  unfolding get_task_output
  fetch_task_state t =
      if t.state == "done"
      then (get_task_output t.id >>= λ exit_code.
          if nat_eq exit_code 0 then pure t.state else pure "error")
      else pure t.state

  -- The loop over the tasks of the context.
  unfoldable pub normalise : String → List DirectorTask → Io W (List BoshTask)
  unfolding fetch_task_state
  normalise deployment [] = pure []
  normalise deployment (t ∷ ts) =
      if t.deployment == deployment
      then (wrapping "Could not retrieve task output" (fetch_task_state t.task) >>= λ state.
          normalise deployment ts >>= λ more. pure (record t.task { state = state } ∷ more))
      else normalise deployment ts

  unfoldable pub get_normalised_tasks_by_context : String → String → Io W (List BoshTask)
  unfolding normalise
  get_normalised_tasks_by_context deployment context_id = built >>= λ _.
      wrapping "Could not fetch tasks for deployment with context id"
        (d.find_tasks_by_context_id context_id)
      >>= λ ts. normalise deployment ts

  abbrev manifest_of : String → Io W (String × Bool)
  manifest_of name =
      wrapping "Cannot create deployment object for deployment" (d.find_deployment name) >>= λ _.
      wrapping "Cannot obtain manifest for deployment" (d.manifest name) >>= λ manifest.
      pure (manifest, true)

  -- The loop over the deployments.
  unfoldable pub find_manifest : String → List String → Io W (String × Bool)
  find_manifest name [] = pure ("", false)
  find_manifest name (deployment ∷ deployments) =
      if deployment == name then manifest_of name else find_manifest name deployments

  unfoldable pub get_deployment : String → Io W (String × Bool)
  unfolding find_manifest
  get_deployment name = built >>= λ _.
      wrapping "Cannot get the list of deployments" d.list_deployments >>= λ deployments.
      find_manifest name deployments

  abbrev delete_found : String → String → Bool → String × Bool → Io W ℕ
  delete_found name context_id force (manifest, false) = pure 0
  delete_found name context_id force (manifest, true) =
      wrapping "BOSH error when deleting deployment" (d.find_deployment name) >>= λ _.
      d.start_delete name context_id force

  -- A deployment that is not there is deleted by a task with the number 0.
  unfoldable pub delete_deployment : String → String → Bool → Io W ℕ
  unfolding get_deployment
  delete_deployment name context_id force = built >>= λ _.
      wrapping "BOSH error when deleting deployment" (get_deployment name) >>= λ found.
      delete_found name context_id force found

  check_slugs : List String → Io W (Unit {0})
  check_slugs [] = pure tt
  check_slugs (i ∷ is) =
      let more = check_slugs is in
      if d.is_slug i then more else fail (wrapped "Invalid instance name for errand" (other ""))

  unfoldable pub run_errand : String → String → List String → String → Io W ℕ
  unfolding check_slugs
  run_errand deployment errand instances context_id = built >>= λ _.
      wrapping "Could not find deployment" (d.find_deployment deployment) >>= λ _.
      check_slugs instances >>= λ _. d.start_errand deployment errand instances context_id

  -- The client as the lifecycle runner takes it.
  abbrev pub bosh_client : BoshClient W
  bosh_client = record {
    get_task = get_task;
    get_normalised_tasks_by_context = get_normalised_tasks_by_context;
    run_errand = run_errand;
    delete_deployment = delete_deployment;
  }
