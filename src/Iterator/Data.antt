-- ===== src/Iterator/Data.antt =====
-- instanceiterator/iterator.go: the parts that the iterator is given, what it reports, and its
-- state. The broker's services and the triggerer act on a world `W` that the iterator does not
-- see; each call gives a reply and the world after it.
use on_demand_service_broker.Prelude.{
  ℕ, Bool, Option, none, List, [], ◌∷◌, String, ◌==◌, Error, if◌then◌else◌,
}
use on_demand_service_broker.Prelude.Dict.{Dict}
use on_demand_service_broker.Prelude.Int.{ℤ}
use on_demand_service_broker.OperationData.{OperationData}
use on_demand_service_broker.IteratorState.Data.{
  OperationState, Instance, TriggeredOperation, IteratorState,
}

pub data Reply (A : Type 0) : Type 0 where
  replied : A → Reply A
  refused : Error → Reply A

-- The calls of BrokerServices and Triggerer.
pub record Env (W : Type 0) : Type 0 where
  pub instances : Option (Dict String) → W → Reply (List Instance) × W
  pub trigger : Instance → W → Reply TriggeredOperation × W
  pub check : String → OperationData → W → Reply TriggeredOperation × W

-- What the iterator is configured with.
pub record Settings : Type 0 where
  pub attempt_limit : ℕ
  pub max_in_flight : ℕ
  pub canary_selection_params : Dict String

-- The error of an operation, and those that the iterator makes itself.
pub data Failure : Type 0 where
  call_failed : Error → Failure
  -- "[guid] Operation failed: bosh task id ...", with the description
  operation_failed : String → ℕ → String → Failure

pub record InstanceFailure : Type 0 where
  pub guid : String
  pub failure : Failure

pub data IteratorError : Type 0 where
  listing_failed : Error → IteratorError
  no_canary_matches : Dict String → IteratorError
  canary_not_in_list : String → IteratorError
  one_failure : Failure → IteratorError
  several_failures : List InstanceFailure → IteratorError
  canaries_failed : IteratorError → IteratorError
  -- the canaries to process, and those that were not busy
  canaries_busy : ℕ → ℤ → IteratorError
  instances_busy : List String → IteratorError

-- The calls of Listener and sleeper.
pub data Event : Type 0 where
  starting : ℕ → Event
  failed_to_refresh_instance_info : String → Event
  retry_attempt : (num limit : ℕ) → Event
  retry_canaries_attempt : (num limit : ℕ) (remaining : ℤ) → Event
  instances_to_process : List Instance → Event
  instance_operation_starting :
      (guid : String) (index total_instances : ℕ) (is_canary : Bool) → Event
  instance_operation_start_result : String → OperationState → Event
  instance_operation_finished : String → (success : Bool) → Event
  waiting_for : String → ℕ → Event
  progress : (orphaned processed skipped to_retry deleted : ℕ) → Event
  finished :
      (orphaned processed skipped deleted : ℕ) (busy_instances failed_instances : List String)
      → Event
  canaries_starting : ℤ → Dict String → Event
  canaries_finished : Event
  slept_polling_interval : Event
  slept_attempt_interval : Event

-- The fields of Iterator that change, the events so far (the newest first), and the world.
pub record Run (W : Type 0) : Type 0 where
  pub state : IteratorState
  pub failures : List InstanceFailure
  pub canaries : ℕ
  pub events : List Event
  pub world : W

module _ {W : Type 0} where
  abbrev pub emit : Event → Run W → Run W
  emit e r = record r { events = e ∷ r.events }

  abbrev pub with_state : IteratorState → Run W → Run W
  with_state s r = record r { state = s }

-- `InstanceNotFoundError` is told apart from the other errors.
pub data LatestInfo : Type 0 where
  refreshed : Instance → LatestInfo
  not_found : LatestInfo
  refresh_failed : Error → LatestInfo

unfoldable pub find_instance : String → List Instance → LatestInfo
find_instance guid [] = not_found
find_instance guid (i ∷ is) = if i.guid == guid then refreshed i else find_instance guid is

module _ {W : Type 0} where
  abbrev pub latest_of : String → Reply (List Instance) × W → LatestInfo × W
  unfolding find_instance
  latest_of guid (refused e, w) = (refresh_failed e, w)
  latest_of guid (replied is, w) = (find_instance guid is, w)

  -- LatestInstanceInfo of broker/services/services.go.
  unfoldable pub latest_instance_info : Env W → Instance → W → LatestInfo × W
  unfolding find_instance
  latest_instance_info env i w = latest_of i.guid (env.instances none w)
