-- ===== src/IteratorState/Queries.antt =====
-- instanceiterator/iterator_state.go: the questions that the iterator asks of its state.
use on_demand_service_broker.Prelude.{
  ℕ, ◌+◌, ltb, leb, nat_eq, length, drop, Bool, true, false, not, ◌&&◌, ◌||◌, Option, none, some,
  List, [], ◌∷◌, ◌++◌, String, if◌then◌else◌,
}
use on_demand_service_broker.Prelude.Dict.{Dict}
use on_demand_service_broker.Prelude.Int.{ℤ, pos, sub_ℕ}
use on_demand_service_broker.IteratorState.Data.{
  OperationState, accepted, succeeded, skipped, failed, in_progress, instance_not_found, pending,
  orphan_deployment, state_eq, Instance, InstanceInfo, IteratorState, info_of,
}

-- The inner loop of GetInstancesInStates, on one instance.
abbrev pub in_states : String → InstanceInfo → List OperationState → List Instance
in_states guid info [] = []
in_states guid info (state ∷ states) =
    (if state_eq info.status state
      then record { guid = guid; plan_unique_id = info.initial_plan; space_guid = "" } ∷ []
      else [])
    ++ in_states guid info states

-- Outside the current phase: the canaries are processed, and this is none.
abbrev pub left_out : Bool → InstanceInfo → Bool
left_out process_canaries info = process_canaries && not info.could_be_canary

abbrev pub phase_in_states : Bool → String → InstanceInfo → List OperationState → List Instance
phase_in_states process_canaries guid info sts =
    if left_out process_canaries info then [] else in_states guid info sts

unfoldable pub collect :
    Dict InstanceInfo → Bool → List OperationState → List String → List Instance
unfolding info_of
collect states canaries sts [] = []
collect states canaries sts (guid ∷ guids) =
    phase_in_states canaries guid (info_of states guid) sts ++ collect states canaries sts guids

unfoldable pub get_instances_in_states : IteratorState → List OperationState → List Instance
unfolding collect
get_instances_in_states s sts = collect s.states s.process_canaries sts s.guids

abbrev pub guids_of : List Instance → List String
guids_of [] = []
guids_of (i ∷ is) = i.guid ∷ guids_of is

unfoldable pub get_guids_in_states : IteratorState → List OperationState → List String
unfolding get_instances_in_states
get_guids_in_states s sts = guids_of (get_instances_in_states s sts)

abbrev pub some_in_states : IteratorState → List OperationState → Bool
some_in_states s sts = ltb 0 (length (get_instances_in_states s sts))

unfoldable pub has_instances_to_process : IteratorState → Bool
unfolding get_instances_in_states
has_instances_to_process s = some_in_states s (pending ∷ accepted ∷ [])

unfoldable pub has_instances_processing : IteratorState → Bool
unfolding get_instances_in_states
has_instances_processing s = some_in_states s (accepted ∷ [])

unfoldable pub has_failures : IteratorState → Bool
unfolding get_instances_in_states
has_failures s = some_in_states s (failed ∷ [])

unfoldable pub in_progress_instances : IteratorState → List Instance
unfolding get_instances_in_states
in_progress_instances s = get_instances_in_states s (accepted ∷ [])

unfoldable pub count_in_progress_instances : IteratorState → ℕ
unfolding in_progress_instances
count_in_progress_instances s = length (in_progress_instances s)

-- The two tests of `processable`.
unfoldable pub processable : IteratorState → String → Bool
unfolding info_of
processable s guid =
    (s.process_canaries
      && (info_of s.states guid).could_be_canary
      && state_eq (info_of s.states guid).status pending)
    || (not s.process_canaries && state_eq (info_of s.states guid).status pending)

abbrev pub pending_instance : IteratorState → String → Instance
unfolding info_of
pending_instance s guid = record {
  guid = guid;
  plan_unique_id = (info_of s.states guid).initial_plan;
  space_guid = "";
}

-- The loop of NextPending over the guids from the position on; `none` is its error.
unfoldable pub scan : List String → IteratorState → Option Instance × IteratorState
unfolding processable
scan [] s = (none, s)
scan (guid ∷ guids) s =
    let s' = record s { position = s.position + 1 } in
    let rest = scan guids s' in
    if processable s' guid then (some (pending_instance s' guid), s') else rest

unfoldable pub next_pending : IteratorState → Option Instance × IteratorState
unfolding scan
next_pending s = scan (drop s.position s.guids) s

unfoldable pub get_iterator_index : IteratorState → ℕ
unfolding get_instances_in_states
get_iterator_index s =
    length (
      get_instances_in_states s
        (succeeded ∷ accepted ∷ instance_not_found ∷ orphan_deployment ∷ []))
    + 1

pub record Summary : Type 0 where
  pub orphaned : ℕ
  pub succeeded_count : ℕ
  pub busy : ℕ
  pub deleted : ℕ
  pub skipped_count : ℕ

unfoldable pub summary : IteratorState → Summary
unfolding get_instances_in_states
summary s = record {
  orphaned = length (get_instances_in_states s (orphan_deployment ∷ []));
  succeeded_count = length (get_instances_in_states s (succeeded ∷ []));
  busy = length (get_instances_in_states s (in_progress ∷ []));
  deleted = length (get_instances_in_states s (instance_not_found ∷ []));
  skipped_count = length (get_instances_in_states s (skipped ∷ []));
}

abbrev pub is_final_state : OperationState → Bool
is_final_state status =
    not (state_eq status in_progress)
    && not (state_eq status pending)
    && not (state_eq status accepted)

-- The loop of OutstandingCanaryCount, for the canaries that are pending and for the others.
unfoldable pub pending_canaries : Dict InstanceInfo → List String → ℕ
unfolding info_of
pending_canaries states [] = 0
pending_canaries states (guid ∷ guids) =
    (if (info_of states guid).could_be_canary && state_eq (info_of states guid).status pending
      then 1
      else 0)
    + pending_canaries states guids

unfoldable pub triggered_canaries : Dict InstanceInfo → List String → ℕ
unfolding info_of
triggered_canaries states [] = 0
triggered_canaries states (guid ∷ guids) =
    (if (info_of states guid).could_be_canary && not (state_eq (info_of states guid).status pending)
      then 1
      else 0)
    + triggered_canaries states guids

unfoldable pub outstanding_canary_count : IteratorState → ℤ
unfolding pending_canaries triggered_canaries
outstanding_canary_count s =
    if ltb 0 s.canary_limit
    then sub_ℕ s.canary_limit (triggered_canaries s.states s.guids)
    else pos (pending_canaries s.states s.guids)

-- The loop of canariesCompleted: with no limit a canary that is not final ends it.
abbrev pub some_canary_unfinished : Dict InstanceInfo → Bool
some_canary_unfinished [] = false
some_canary_unfinished ((_, info) ∷ m) =
    (info.could_be_canary && not (is_final_state info.status)) || some_canary_unfinished m

abbrev pub completed_canaries : Dict InstanceInfo → ℕ
completed_canaries [] = 0
completed_canaries ((_, info) ∷ m) =
    (if info.could_be_canary && is_final_state info.status then 1 else 0) + completed_canaries m

unfoldable pub canaries_completed : IteratorState → Bool
canaries_completed s =
    if nat_eq s.canary_limit 0 && some_canary_unfinished s.states
    then false
    else leb s.canary_limit (completed_canaries s.states)

abbrev pub all_final : Dict InstanceInfo → Bool
all_final [] = true
all_final ((_, info) ∷ m) = is_final_state info.status && all_final m

unfoldable pub all_completed : IteratorState → Bool
all_completed s = all_final s.states

unfoldable pub current_phase_is_complete : IteratorState → Bool
unfolding canaries_completed all_completed
current_phase_is_complete s = if s.process_canaries then canaries_completed s else all_completed s

abbrev pub phase_size : Bool → Dict InstanceInfo → ℕ
phase_size canaries [] = 0
phase_size canaries ((_, info) ∷ m) =
    (if left_out canaries info then 0 else 1) + phase_size canaries m

unfoldable pub count_instances_in_current_phase : IteratorState → ℕ
count_instances_in_current_phase s = phase_size s.process_canaries s.states
