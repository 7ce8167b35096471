-- ===== src/IteratorState/Updates.antt =====
-- instanceiterator/iterator_state.go: the operations that change the iterator's state.
use on_demand_service_broker.Prelude.{false, [], ◌∷◌, String, if◌then◌else◌}
use on_demand_service_broker.Prelude.Dict.{Dict, insert}
use on_demand_service_broker.IteratorState.Data.{
  OperationState, in_progress, pending, state_eq, TriggeredOperation, InstanceInfo, IteratorState,
  info_of,
}

abbrev pub reset_busy : Dict InstanceInfo → Dict InstanceInfo
reset_busy [] = []
reset_busy ((k, v) ∷ m) =
    (k, if state_eq v.status in_progress then record v { status = pending } else v) ∷ reset_busy m

unfoldable pub rewind_and_reset_busy_instances : IteratorState → IteratorState
rewind_and_reset_busy_instances s = record s { position = 0; states = reset_busy s.states }

unfoldable pub set_state : String → OperationState → IteratorState → IteratorState
unfolding info_of insert
set_state guid state s = record s {
  states = insert guid (record (info_of s.states guid) { status = state }) s.states;
}

unfoldable pub set_operation : String → TriggeredOperation → IteratorState → IteratorState
unfolding info_of insert
set_operation guid operation s = record s {
  states = insert guid (record (info_of s.states guid) { operation = operation }) s.states;
}

unfoldable pub get_operation : IteratorState → String → TriggeredOperation
unfolding info_of
get_operation s guid = (info_of s.states guid).operation

unfoldable pub mark_canaries_completed : IteratorState → IteratorState
mark_canaries_completed s = record s { process_canaries = false; position = 0 }
