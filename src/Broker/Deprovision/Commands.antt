-- ===== src/Broker/Deprovision/Commands.antt =====
-- On the commands that Deprovision of broker/deprovision.go sends.
use on_demand_service_broker.Prelude.{
  ℕ, ◌+◌, ◌≡◌, refl, ◌⊎◌, inl, inr, Bool, true, false, List, [], ◌∷◌, String, Result, ok, err,
  panic,
}
use on_demand_service_broker.Config.{Errand, ServiceOffering, find_plan_by_id}
use on_demand_service_broker.OperationData.{OperationType}
use on_demand_service_broker.Bosh.{BoshTask}
use on_demand_service_broker.Broker.{Broker}
use on_demand_service_broker.Broker.Deprovision.{
  get_operation_type, deprovision, start_deletion, when_found, errands_of_plan,
  run_pre_delete_errands, delete_instance, deprovision_not_found,
  delete_configs_for_not_found_instance, clear_secrets_for_not_found_instance,
  assert_deployment_exists, assert_no_operations_in_progress,
}

-- The calls that change something outside.
pub data Call : Type 0 where
  errand_started : String → Call
  deletion_started : (force : Bool) → Call
  configs_deleted secrets_deleted client_deleted : Call

-- What each call answers.
pub record Replies : Type 0 where
  pub info : Result (Unit {0})
  pub deployment : Result Bool
  pub tasks : Result (List BoshTask)
  pub uuid : Result String
  pub errand : Result ℕ
  pub deletion : Result ℕ
  pub configs : Result (Unit {0})
  pub secrets : Result (Unit {0})
  pub client : Result (Unit {0})

abbrev replies :
    Result (Unit {0})
    → Result Bool
    → Result (List BoshTask)
    → Result String
    → Result ℕ
    → Result ℕ
    → Result (Unit {0})
    → Result (Unit {0})
    → Result (Unit {0})
    → Replies
replies info deployment tasks uuid errand deletion configs secrets client = record {
  info = info;
  deployment = deployment;
  tasks = tasks;
  uuid = uuid;
  errand = errand;
  deletion = deletion;
  configs = configs;
  secrets = secrets;
  client = client;
}

-- A broker that records the calls, the newest first.
abbrev pub recording : Replies → (expose disable : Bool) → ServiceOffering → Broker (List Call)
recording r expose disable offering = record {
  expose_operational_errors = expose;
  disable_bosh_configs = disable;
  service_offering = offering;
  bosh = record {
    get_task = λ _ w. (panic, w);
    get_normalised_tasks_by_context = λ _ _ w. (panic, w);
    run_errand = λ _ name _ _ w. (r.errand, errand_started name ∷ w);
    delete_deployment = λ _ _ force w. (r.deletion, deletion_started force ∷ w);
  };
  get_info = λ w. (r.info, w);
  get_deployment = λ _ w. (r.deployment, w);
  get_tasks_in_progress = λ _ w. (r.tasks, w);
  delete_configs = λ _ w. (r.configs, configs_deleted ∷ w);
  delete_secrets_for_instance = λ _ w. (r.secrets, secrets_deleted ∷ w);
  delete_client = λ _ w. (r.client, client_deleted ∷ w);
  new_uuid = λ w. (r.uuid, w);
}

-- The tasks of the director that the calls start.
abbrev pub starts : List Call → ℕ
starts [] = 0
starts (errand_started _ ∷ calls) = 1 + starts calls
starts (deletion_started _ ∷ calls) = 1 + starts calls
starts (_ ∷ calls) = starts calls

module _ (instance_id : String) (expose disable : Bool) (offering : ServiceOffering) where
  abbrev AtMostOne : Replies → List Call → Type 0
  AtMostOne r calls =
      (starts calls ≡ 0) ⊎ ((starts calls ≡ 1) × (r.deployment ≡ ok true) × (r.tasks ≡ ok []))

  started_once :
      (i : Result (Unit {0})) (u : Result String) (e d : Result ℕ) (c s l : Result (Unit {0}))
      (op : OperationType) (errands : List Errand)
      → let r = replies i (ok true) (ok []) u e d c s l in
        AtMostOne r
          (start_deletion (recording r expose disable offering) instance_id op errands []).1
  unfolding run_pre_delete_errands delete_instance start_deletion
  started_once i u e (ok n) c s (ok _) op [] = inr (refl, refl, refl)
  started_once i u e (ok n) c s (err _) op [] = inr (refl, refl, refl)
  started_once i u e (ok n) c s panic op [] = inr (refl, refl, refl)
  started_once i u e (err x) c s (ok _) op [] = inr (refl, refl, refl)
  started_once i u e (err x) c s (err _) op [] = inr (refl, refl, refl)
  started_once i u e (err x) c s panic op [] = inr (refl, refl, refl)
  started_once i u e panic c s l op [] = inr (refl, refl, refl)
  started_once i (ok x) (ok n) d c s l op (first ∷ rest) = inr (refl, refl, refl)
  started_once i (ok x) (err n) d c s l op (first ∷ rest) = inr (refl, refl, refl)
  started_once i (ok x) panic d c s l op (first ∷ rest) = inr (refl, refl, refl)
  started_once i (err x) e d c s l op (first ∷ rest) = inl refl
  started_once i panic e d c s l op (first ∷ rest) = inl refl

  cleared_none :
      (disabled : Bool) (i : Result (Unit {0})) (f : Result Bool) (t : Result (List BoshTask))
      (u : Result String) (e d : Result ℕ) (c s l : Result (Unit {0}))
      → let r = replies i f t u e d c s l in
        starts (deprovision_not_found (recording r expose disabled offering) instance_id []).1 ≡ 0
  unfolding deprovision_not_found delete_configs_for_not_found_instance
      clear_secrets_for_not_found_instance
  cleared_none true i f t u e d c (ok _) l = refl
  cleared_none true i f t u e d c (err _) l = refl
  cleared_none true i f t u e d c panic l = refl
  cleared_none false i f t u e d (ok _) (ok _) l = refl
  cleared_none false i f t u e d (ok _) (err _) l = refl
  cleared_none false i f t u e d (ok _) panic l = refl
  cleared_none false i f t u e d (err _) s l = refl
  cleared_none false i f t u e d panic s l = refl

  asked_once :
      (i : Result (Unit {0})) (f : Result Bool) (t : Result (List BoshTask)) (u : Result String)
      (e d : Result ℕ) (c s l : Result (Unit {0})) (plan_id : String) (force async : Bool)
      → let r = replies i f t u e d c s l in
        AtMostOne r
          (deprovision (recording r expose disable offering) instance_id plan_id force async []).1
  unfolding deprovision assert_deployment_exists when_found assert_no_operations_in_progress
  asked_once i f t u e d c s l plan_id force false = inl refl
  asked_once (err _) f t u e d c s l plan_id force true = inl refl
  asked_once panic f t u e d c s l plan_id force true = inl refl
  asked_once (ok _) (err _) t u e d c s l plan_id force true = inl refl
  asked_once (ok _) panic t u e d c s l plan_id force true = inl refl
  asked_once (ok i) (ok false) t u e d c s l plan_id force true =
      inl (cleared_none disable (ok i) (ok false) t u e d c s l)
  asked_once (ok _) (ok true) (err _) u e d c s l plan_id force true = inl refl
  asked_once (ok _) (ok true) panic u e d c s l plan_id force true = inl refl
  asked_once (ok _) (ok true) (ok (task ∷ tasks)) u e d c s l plan_id force true = inl refl
  asked_once (ok i) (ok true) (ok []) u e d c s l plan_id force true =
      started_once (ok i) u e d c s l (get_operation_type force) (
        errands_of_plan
          (recording (replies (ok i) (ok true) (ok []) u e d c s l) expose disable offering)
          (find_plan_by_id offering plan_id))

  -- A deprovision starts at most one task of the director, an errand or the deletion, whatever the
  -- calls answer; it starts one only if the deployment is found and none of its tasks is in progress.
  pub deprovision_never_twice :
      (r : Replies) (plan_id : String) (force async_allowed : Bool)
      → let calls =
          (deprovision
            (recording r expose disable offering)
            instance_id
            plan_id
            force
            async_allowed
            []).1 in
        (starts calls ≡ 0) ⊎ ((starts calls ≡ 1) × (r.deployment ≡ ok true) × (r.tasks ≡ ok []))
  deprovision_never_twice r plan_id force async_allowed =
      asked_once r.info r.deployment r.tasks r.uuid r.errand r.deletion r.configs r.secrets r.client
        plan_id force async_allowed
