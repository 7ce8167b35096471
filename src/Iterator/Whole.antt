-- ===== src/Iterator/Whole.antt =====
-- instanceiterator/iterator.go: Iterate, from the listing of the instances to the summary.
use on_demand_service_broker.Prelude.{
  ℕ, ltb, nat_eq, length, true, false, ◌&&◌, Option, none, some, List, [], ◌∷◌, String,
  if◌then◌else◌,
}
use on_demand_service_broker.Prelude.Dict.{Dict}
use on_demand_service_broker.IteratorState.Data.{
  Instance, IteratorState, Created, created, canary_unknown, new_iterator_state,
}
use on_demand_service_broker.IteratorState.Queries.{outstanding_canary_count}
use on_demand_service_broker.IteratorState.Updates.{mark_canaries_completed}
use on_demand_service_broker.Iterator.Data.{
  Reply, replied, refused, Env, Settings, IteratorError, listing_failed, no_canary_matches,
  canary_not_in_list, Run, emit, with_state, starting, instances_to_process, canaries_starting,
  canaries_finished,
}
use on_demand_service_broker.Iterator.Loops.{iterate_instances_with_attempts, print_summary}

-- What registerInstancesAndCanaries leaves: an error, or the state, the number of canaries and the
-- world.
pub data Registered (W : Type 0) : Type 0 where
  not_registered : IteratorError → W → Registered W
  registered : IteratorState → ℕ → W → Registered W

module _ {W : Type 0} where
  unfoldable pub with_created : ℕ → W → Created → Registered W
  with_created canaries w (canary_unknown guid) = not_registered (canary_not_in_list guid) w
  with_created canaries w (created s) = registered s canaries w

  unfoldable pub with_canaries :
      Dict String → ℕ → List Instance → Reply (List Instance) × W → Registered W
  unfolding new_iterator_state with_created
  with_canaries params canaries all (refused e, w) = not_registered (listing_failed e) w
  with_canaries params canaries all (replied chosen, w) =
      if nat_eq (length chosen) 0 && ltb 0 (length all)
      then not_registered (no_canary_matches params) w
      else (let canaries' : ℕ = if ltb (length chosen) canaries then length chosen else canaries in
          with_created canaries' w (new_iterator_state chosen all canaries'))

  unfoldable pub with_listed : Env W → Settings → ℕ → Reply (List Instance) × W → Registered W
  unfolding new_iterator_state with_created with_canaries
  with_listed env settings canaries (refused e, w) = not_registered (listing_failed e) w
  with_listed env settings canaries (replied all, w) =
      if ltb 0 (length settings.canary_selection_params)
      then with_canaries settings.canary_selection_params canaries all
          (env.instances (some settings.canary_selection_params) w)
      else with_created canaries w
          (new_iterator_state (if ltb 0 canaries then all else []) all canaries)

  unfoldable pub register_instances_and_canaries : Env W → Settings → ℕ → W → Registered W
  unfolding with_listed
  register_instances_and_canaries env settings canaries w =
      with_listed env settings canaries (env.instances none w)

-- The result of Iterate, with the run that it leaves, where it gets as far as one.
pub data Result (W : Type 0) : Type 0 where
  not_started : IteratorError → W → Result W
  ended : Option IteratorError → Run W → Result W

module _ {W : Type 0} (env : Env W) (settings : Settings) (fuel : ℕ) where
  unfoldable pub with_summary : Option (Option IteratorError × Run W) → Option (Result W)
  unfolding print_summary
  with_summary none = none
  with_summary (some (e, r)) = some (ended e (print_summary r))

  -- All instances, after the canaries.
  unfoldable pub iterate_all : Run W → Option (Result W)
  unfolding iterate_instances_with_attempts print_summary with_summary
  iterate_all r = with_summary (iterate_instances_with_attempts env settings fuel r)

  unfoldable pub after_canaries : Option (Option IteratorError × Run W) → Option (Result W)
  unfolding iterate_all print_summary mark_canaries_completed
  after_canaries none = none
  after_canaries (some (some e, r)) = some (ended (some e) (print_summary r))
  after_canaries (some (none, r)) =
      iterate_all (emit canaries_finished (with_state (mark_canaries_completed r.state) r))

  unfoldable pub iterate_registered : Run W → Option (Result W)
  unfolding iterate_instances_with_attempts iterate_all print_summary mark_canaries_completed
      after_canaries outstanding_canary_count
  iterate_registered r = elim r.state.process_canaries [
    | true ↦ after_canaries (
        iterate_instances_with_attempts env settings fuel (
          emit
            (canaries_starting (outstanding_canary_count r.state) settings.canary_selection_params)
            r))
    | false ↦ iterate_all r
  ]

  unfoldable pub started : Registered W → Option (Result W)
  unfolding iterate_registered
  started (not_registered e w) = some (not_started e w)
  started (registered s canaries w) = iterate_registered (record {
    state = s;
    failures = [];
    canaries = canaries;
    events = instances_to_process s.all_instances ∷ starting settings.max_in_flight ∷ [];
    world = w;
  })

  unfoldable pub iterate : (canaries : ℕ) → W → Option (Result W)
  unfolding register_instances_and_canaries iterate_registered started
  iterate canaries w = started (register_instances_and_canaries env settings canaries w)
