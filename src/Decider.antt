-- ===== src/Decider.antt =====
-- broker/decider/decider.go: whether a request provisions, updates or upgrades an instance.
-- `MaintenanceInfo` and its `Equals` belong to the brokerapi library, and the decoding of the raw
-- parameters to encoding/json: a type and two functions that the definitions take. `unmarshal`
-- gives the keys of the decoded object, and `none` for an error.
pub mod Validation
pub mod Verdict
pub mod Laws
use on_demand_service_broker.Prelude.{
  Bool, true, false, not, ◌&&◌, ◌==◌, Option, none, some, List, [], ◌∷◌, String, if◌then◌else◌,
}

-- The fields of domain.ServicePlan and domain.Service that the decider reads.
pub record ServicePlan (Mi : Type 0) : Type 0 where
  pub id : String
  pub maintenance_info : Option Mi

pub record Service (Mi : Type 0) : Type 0 where
  pub plans : List (ServicePlan Mi)

-- domain.UpdateDetails, with the fields of its PreviousValues.
pub record UpdateDetails (Mi : Type 0) : Type 0 where
  pub plan_id : String
  pub raw_parameters : String
  pub maintenance_info : Option Mi
  pub previous_plan_id : String
  pub previous_maintenance_info : Option Mi

pub data Operation : Type 0 where
  update upgrade failed : Operation

-- The errors of the package, told apart by identity in the source.
pub data DeciderError : Type 0 where
  instance_must_be_upgraded_first : DeciderError
  maintenance_info_nil_in_the_request : DeciderError
  maintenance_info_nil_conflict : DeciderError
  maintenance_info_conflict : DeciderError
  plan_does_not_exist : String → DeciderError

-- A call returns, or it panics on an index out of range.
pub data Call (A : Type 0) : Type 0 where
  returns : A → Call A
  panics : Call A

infixl 5 ◌>>=◌
abbrev pub ◌>>=◌ : {A B : Type 0} → Call A → (A → Call B) → Call B
returns a >>= f = f a
panics >>= f = panics

-- The pair `(*MaintenanceInfo, error)`.
pub data PlanLookup (Mi : Type 0) : Type 0 where
  found : Option Mi → PlanLookup Mi
  missing : DeciderError → PlanLookup Mi

pub unless_warning : Option DeciderError → Option DeciderError
unless_warning (some maintenance_info_nil_in_the_request) = none
unless_warning e = e

or_update : Option DeciderError → Operation × Option DeciderError
or_update none = (update, none)
or_update (some e) = (failed, some e)

-- `err == nil && len(params) == 0`
keys_empty : Option (List String) → Bool
keys_empty none = false
keys_empty (some []) = true
keys_empty (some (_ ∷ _)) = false

module _ {Mi : Type 0} where
  unfoldable pub find_plan : String → List (ServicePlan Mi) → PlanLookup Mi
  find_plan id [] = missing (plan_does_not_exist id)
  find_plan id (plan ∷ plans) =
      if plan.id == id then found plan.maintenance_info else find_plan id plans

  get_maintenance_info_for_plan : String → List (Service Mi) → Call (PlanLookup Mi)
  unfolding find_plan
  get_maintenance_info_for_plan id [] = panics
  get_maintenance_info_for_plan id (service ∷ _) = returns (find_plan id service.plans)

  plan_not_changed : UpdateDetails Mi → Bool
  plan_not_changed details = details.plan_id == details.previous_plan_id

  request_params_empty : (String → Option (List String)) → UpdateDetails Mi → Bool
  unfolding keys_empty
  request_params_empty unmarshal details =
      if details.raw_parameters == "" then true else keys_empty (unmarshal details.raw_parameters)

  conflict_error : Option Mi → Option Mi → DeciderError
  conflict_error none _ = maintenance_info_nil_in_the_request
  conflict_error (some _) none = maintenance_info_nil_conflict
  conflict_error (some _) (some _) = maintenance_info_conflict

module _ {Mi : Type 0} (equals : Mi → Mi → Bool) where
  pub maintenance_info_conflict? : Option Mi → Option Mi → Bool
  maintenance_info_conflict? (some a) (some b) = not (equals a b)
  maintenance_info_conflict? none none = false
  maintenance_info_conflict? _ _ = true

  pub values_differ : Option Mi → Option Mi → Bool
  values_differ none (some _) = true
  values_differ (some _) none = true
  values_differ none none = false
  values_differ (some a) (some b) = not (equals a b)

  request_maintenance_info_values_differ : UpdateDetails Mi → Bool
  unfolding values_differ
  request_maintenance_info_values_differ details =
      values_differ details.maintenance_info details.previous_maintenance_info

  pub check_requested : Option Mi → PlanLookup Mi → Option DeciderError
  unfolding maintenance_info_conflict? conflict_error
  check_requested requested (missing e) = some e
  check_requested requested (found planned) =
      if maintenance_info_conflict? requested planned
      then some (conflict_error requested planned)
      else none

  validate_maintenance_info : List (Service Mi) → String → Option Mi → Call (Option DeciderError)
  unfolding get_maintenance_info_for_plan check_requested
  validate_maintenance_info catalog plan_id requested = do
    plan ← get_maintenance_info_for_plan plan_id catalog
    returns (check_requested requested plan)

  pub check_previous : Option Mi → PlanLookup Mi → Option DeciderError
  unfolding maintenance_info_conflict?
  check_previous previous (missing e) = none
  check_previous previous (found planned) =
      if maintenance_info_conflict? previous planned
      then some instance_must_be_upgraded_first
      else none

  validate_previous_of :
      Option Mi → UpdateDetails Mi → List (Service Mi) → Call (Option DeciderError)
  unfolding get_maintenance_info_for_plan check_previous
  validate_previous_of none details catalog = returns none
  validate_previous_of (some m) details catalog = do
    plan ← get_maintenance_info_for_plan details.previous_plan_id catalog
    returns (check_previous (some m) plan)

  pub validate_previous_maintenance_info :
      UpdateDetails Mi → List (Service Mi) → Call (Option DeciderError)
  unfolding validate_previous_of
  validate_previous_maintenance_info details catalog =
      validate_previous_of details.previous_maintenance_info details catalog

  unfoldable pub can_provision : List (Service Mi) → String → Option Mi → Call (Option DeciderError)
  unfolding validate_maintenance_info unless_warning
  can_provision catalog plan_id requested = do
    e ← validate_maintenance_info catalog plan_id requested
    returns (unless_warning e)

  module _ (unmarshal : String → Option (List String)) where
    -- The three parts of DecideOperation: after an error of the validation, with and without the
    -- warning, and after none.
    decide_from :
        List (Service Mi)
        → UpdateDetails Mi
        → Option DeciderError
        → Call (Operation × Option DeciderError)
    unfolding or_update validate_previous_maintenance_info request_maintenance_info_values_differ
        plan_not_changed request_params_empty
    decide_from catalog details (some maintenance_info_nil_in_the_request) = do
      e ← validate_previous_maintenance_info details catalog
      returns (or_update e)
    decide_from catalog details (some e) = returns (failed, some e)
    decide_from catalog details none =
        if plan_not_changed details
          && request_params_empty unmarshal details
          && request_maintenance_info_values_differ details
        then returns (upgrade, none)
        else (validate_previous_maintenance_info details catalog >>= λ e. returns (or_update e))

    unfoldable pub decide_operation :
        List (Service Mi) → UpdateDetails Mi → Call (Operation × Option DeciderError)
    unfolding validate_maintenance_info decide_from
    decide_operation catalog details =
        validate_maintenance_info catalog details.plan_id details.maintenance_info
        >>= decide_from catalog details
