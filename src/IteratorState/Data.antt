-- ===== src/IteratorState/Data.antt =====
-- instanceiterator/iterator_state.go and the types of iterator.go: the data, and NewIteratorState.
use on_demand_service_broker.Prelude.{
  ℕ, ltb, nat_eq, length, Bool, true, false, Option, none, some, List, [], ◌∷◌, ◌++◌, String,
}
use on_demand_service_broker.Prelude.Dict.{Dict, lookup, insert}
use on_demand_service_broker.OperationData.{OperationData, no_operation_data}

-- `unset` is the empty text, which no constant names.
pub data OperationState : Type 0 where
  accepted succeeded skipped failed in_progress instance_not_found pending orphan_deployment unset :
      OperationState

abbrev pub rank : OperationState → ℕ
rank accepted = 0
rank succeeded = 1
rank skipped = 2
rank failed = 3
rank in_progress = 4
rank instance_not_found = 5
rank pending = 6
rank orphan_deployment = 7
rank unset = 8

-- Two texts are equal.
abbrev pub state_eq : OperationState → OperationState → Bool
state_eq s t = nat_eq (rank s) (rank t)

-- service.Instance
pub record Instance : Type 0 where
  pub guid : String
  pub plan_unique_id : String
  pub space_guid : String

pub record TriggeredOperation : Type 0 where
  pub state : OperationState
  pub operation_data : OperationData
  pub description : String

abbrev pub no_operation : TriggeredOperation
no_operation = record { state = unset; operation_data = no_operation_data; description = "" }

pub record InstanceInfo : Type 0 where
  pub status : OperationState
  pub initial_plan : String
  pub operation : TriggeredOperation
  pub could_be_canary : Bool

abbrev pub no_info : InstanceInfo
no_info = record {
  status = unset;
  initial_plan = "";
  operation = no_operation;
  could_be_canary = false;
}

pub record IteratorState : Type 0 where
  pub guids : List String
  pub states : Dict InstanceInfo
  pub process_canaries : Bool
  pub canary_limit : ℕ
  pub position : ℕ
  pub all_instances : List Instance

abbrev pub or_no_info : Option InstanceInfo → InstanceInfo
or_no_info none = no_info
or_no_info (some info) = info

-- `is.states[guid]`, the zero value for a missing key.
unfoldable pub info_of : Dict InstanceInfo → String → InstanceInfo
unfolding lookup
info_of states guid = or_no_info (lookup guid states)

-- The two loops of NewIteratorState.
abbrev pub new_info : Instance → InstanceInfo
new_info i = record {
  status = pending;
  initial_plan = i.plan_unique_id;
  operation = no_operation;
  could_be_canary = false;
}

unfoldable pub register :
    List Instance → List String → Dict InstanceInfo → List String × Dict InstanceInfo
unfolding insert
register [] guids states = (guids, states)
register (i ∷ is) guids states =
    register is (guids ++ i.guid ∷ []) (insert i.guid (new_info i) states)

pub data Marked : Type 0 where
  marked : Dict InstanceInfo → Marked
  canary_not_listed : String → Marked

unfoldable pub mark_canaries : List Instance → Dict InstanceInfo → Marked
unfolding insert lookup
mark_canaries [] states = marked states
mark_canaries (i ∷ is) states = elim (lookup i.guid states) [
  | none ↦ canary_not_listed i.guid
  | some info ↦ mark_canaries is (insert i.guid (record info { could_be_canary = true }) states)
]

pub data Created : Type 0 where
  created : IteratorState → Created
  canary_unknown : String → Created

abbrev pub with_marked : List Instance → List Instance → ℕ → List String → Marked → Created
with_marked canaries all limit guids (canary_not_listed guid) = canary_unknown guid
with_marked canaries all limit guids (marked states) = created (record {
  guids = guids;
  states = states;
  process_canaries = ltb 0 (length canaries);
  canary_limit = limit;
  position = 0;
  all_instances = all;
})

unfoldable pub new_iterator_state : List Instance → List Instance → ℕ → Created
unfolding register mark_canaries
new_iterator_state canaries all limit =
    let (guids, states) = register all [] [] in
    with_marked canaries all limit guids (mark_canaries canaries states)
