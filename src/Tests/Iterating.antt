-- ===== src/Tests/Iterating.antt =====
-- instanceiterator/iterator.go on two and three instances.
use on_demand_service_broker.Prelude.{
  ◌≤◌, ◌≡◌, refl, ◌==◌, eq_iff, true, false, Bool, Option, none, some, [], ◌∷◌, String, arith,
}
use on_demand_service_broker.Prelude.Dict.{Distinct, lookup}
use on_demand_service_broker.Prelude.Int.{pos, less}
use on_demand_service_broker.IteratorState.Data.{
  OperationState, accepted, succeeded, failed, in_progress, pending, Instance, TriggeredOperation,
  no_operation, InstanceInfo, IteratorState,
}
use on_demand_service_broker.IteratorState.Queries.{
  count_in_progress_instances, in_progress_instances, has_instances_to_process, has_failures,
  canaries_completed, outstanding_canary_count,
}
use on_demand_service_broker.IteratorState.Tally.{IsOrdered}
use on_demand_service_broker.Iterator.Data.{Env, Settings, replied, Run, IteratorError}
use on_demand_service_broker.Iterator.Steps.{trigger_operation}
use on_demand_service_broker.Iterator.Loops.{round, process_loop}
use on_demand_service_broker.Iterator.Whole.{iterate, Result, ended}
use on_demand_service_broker.Iterator.InFlight.{round_in_flight}
use on_demand_service_broker.Iterator.Frame.{trigger_operation_only_canaries, round_keeps_settled}
use on_demand_service_broker.Iterator.Livelock.{canary_loop_never_ends}

abbrev pub instance_of : String → Instance
instance_of guid = record { guid = guid; plan_unique_id = "small"; space_guid = "" }

abbrev pub operation_in : OperationState → TriggeredOperation
operation_in state = record no_operation { state = state }

-- The first instance is busy when it is triggered; each other operation is accepted, and has
-- succeeded when it is polled.
abbrev pub busy_first : Env (Unit {0})
busy_first = record {
  instances = λ _ w. (replied (instance_of "a" ∷ instance_of "b" ∷ instance_of "c" ∷ []), w);
  trigger = λ i w. elim (i.guid == "a") [
    | true ↦ (replied (operation_in in_progress), w)
    | false ↦ (replied (operation_in accepted), w)
  ];
  check = λ _ _ w. (replied (operation_in succeeded), w);
}

abbrev pub one_at_once : Settings
one_at_once = record { attempt_limit = 2; max_in_flight = 1; canary_selection_params = [] }

abbrev pub info_in : OperationState → Bool → InstanceInfo
info_in state canary = record {
  status = state;
  initial_plan = "small";
  operation = operation_in state;
  could_be_canary = canary;
}

abbrev pub state_of : OperationState → OperationState → OperationState → Bool → Bool → IteratorState
state_of a b c canaries last = record {
  guids = "a" ∷ "b" ∷ "c" ∷ [];
  states = ("a", info_in a canaries) ∷ ("b", info_in b canaries) ∷ ("c", info_in c last) ∷ [];
  process_canaries = canaries;
  canary_limit = 2;
  position = 0;
  all_instances = [];
}

abbrev pub run_of : IteratorState → Run (Unit {0})
run_of s = record { state = s; failures = []; canaries = 2; events = []; world = tt }

pub guids-Distinct : Distinct ("a" ∷ "b" ∷ "c" ∷ [])
guids-Distinct = (
  ((λ e. ground (arith, eq_iff "a" "b")), ((λ e. ground (arith, eq_iff "a" "c")), tt)),
  (((λ e. ground (arith, eq_iff "b" "c")), tt), (tt, tt)),
)

abbrev midway : IteratorState
midway = state_of succeeded accepted pending false false

midway-IsOrdered : IsOrdered midway
midway-IsOrdered = record { listed = refl; distinct = guids-Distinct }

one_running : count_in_progress_instances midway ≤ 1
unfolding count_in_progress_instances
one_running = omega arith

a_there : lookup "a" midway.states ≡ some (info_in succeeded false)
unfolding lookup
a_there = refl

c_there :
    lookup "c" (state_of pending pending pending true false).states ≡ some (info_in pending false)
unfolding lookup
c_there = refl

round_in_flight_example :
    let s = (trigger_operation busy_first one_at_once (run_of midway)).state in
    let s' = (round busy_first one_at_once (run_of midway)).state in
    (IsOrdered s × (count_in_progress_instances s ≤ 1))
    × (IsOrdered s' × (count_in_progress_instances s' ≤ 1))
round_in_flight_example =
    round_in_flight busy_first one_at_once (run_of midway) midway-IsOrdered one_running

abbrev canary_phase : IteratorState
canary_phase = state_of pending pending pending true false

trigger_operation_only_canaries_example :
    lookup "c" (trigger_operation busy_first one_at_once (run_of canary_phase)).state.states
    ≡ some (info_in pending false)
trigger_operation_only_canaries_example =
    trigger_operation_only_canaries busy_first one_at_once (run_of canary_phase) "c"
      (info_in pending false) c_there refl refl

round_keeps_settled_example :
    lookup "a" (round busy_first one_at_once (run_of midway)).state.states
    ≡ some (info_in succeeded false)
round_keeps_settled_example =
    round_keeps_settled busy_first one_at_once (run_of midway) "a" (info_in succeeded false) a_there
      guids-Distinct (λ e. cc) (λ e. cc)

-- The first canary is busy, the second has succeeded, and two are wanted.
abbrev stuck : IteratorState
stuck = state_of in_progress succeeded pending true true

enough : less (pos 0) (outstanding_canary_count stuck) ≡ false
unfolding outstanding_canary_count
enough = refl

idle : in_progress_instances stuck ≡ []
unfolding in_progress_instances
idle = refl

left : has_instances_to_process stuck ≡ true
unfolding has_instances_to_process
left = refl

unfinished : canaries_completed stuck ≡ false
unfolding canaries_completed
unfinished = refl

canary_loop_never_ends_example : process_loop busy_first one_at_once 100 (run_of stuck) ≡ none
canary_loop_never_ends_example =
    canary_loop_never_ends busy_first one_at_once (run_of stuck) refl enough idle left unfinished
      100

-- The iterator comes to that state by itself.
stuck_run : iterate busy_first one_at_once 3 2 tt ≡ none
unfolding iterate
stuck_run = refl

-- The trigger answers that the last operation of the instance has failed.
abbrev failing : Env (Unit {0})
failing = record busy_first {
  instances = λ _ w. (replied (instance_of "a" ∷ []), w);
  trigger = λ _ w. (replied (operation_in failed), w);
}

abbrev verdict_of : Option (Result (Unit {0})) → Option (Option IteratorError × Bool)
unfolding has_failures
verdict_of (some (ended e r)) = some (e, has_failures r.state)
verdict_of _ = none

-- The instance has failed, and the iterator returns no error.
lost_failure_run : verdict_of (iterate failing one_at_once 3 0 tt) ≡ some (none, true)
unfolding iterate verdict_of has_failures
lost_failure_run = refl
