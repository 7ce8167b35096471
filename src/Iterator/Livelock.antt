-- ===== src/Iterator/Livelock.antt =====
-- On the loop over the instances in progress of instanceiterator/iterator.go, while the canaries are
-- processed.
use on_demand_service_broker.Prelude.{
  ℕ, zero, suc, ◌≡◌, refl, Bool, true, false, drop, none, List, [], ◌∷◌, String, ◌&&◌,
  if◌then◌else◌, arith,
}
use on_demand_service_broker.Prelude.Int.{ℤ, pos, negsuc, less, is_zero, at_most, sub_ℕ}
use on_demand_service_broker.IteratorState.Queries.{
  has_instances_to_process, has_instances_processing, in_progress_instances,
  count_in_progress_instances, outstanding_canary_count, count_instances_in_current_phase,
  current_phase_is_complete, canaries_completed,
}
use on_demand_service_broker.Iterator.Data.{Env, Settings, Run}
use on_demand_service_broker.Iterator.Steps.{
  operations_to_trigger_count, trigger_from, trigger_operation, poll_running_tasks, poll_all,
}
use on_demand_service_broker.Iterator.Loops.{round, process_loop}

at_most_none : (a b : ℤ) → less (pos 0) b ≡ false → less (pos 0) (at_most a b) ≡ false
at_most_none (pos a) (pos b) h = ground arith
at_most_none (pos a) (negsuc b) h = refl
at_most_none (negsuc a) (pos b) h = refl
at_most_none (negsuc a) (negsuc b) h = ground arith

picked_none :
    (b : Bool) (a c : ℤ)
    → b ≡ true
    → less (pos 0) c ≡ false
    → less (pos 0) (if b then at_most a c else a) ≡ false
picked_none true a c e h = at_most_none a c h
picked_none false a c e h = cc

either_way : {A : Type 0} {x r : A} (b : Bool) → x ≡ r → (if b then r else x) ≡ r
either_way true h = refl
either_way false h = h

module _ {W : Type 0} (env : Env W) where
  trigger_from_none :
      (total : ℕ) (needed : ℤ) (guids : List String) (r : Run W)
      → less (pos 0) needed ≡ false
      → trigger_from env total needed 0 guids r ≡ r
  unfolding trigger_from
  trigger_from_none total needed [] r h = refl
  trigger_from_none total needed (guid ∷ guids) r h = rw (h, trigger_from) refl

module _ {W : Type 0} (env : Env W) (settings : Settings) (r : Run W)
    (canaries : r.state.process_canaries ≡ true)
    (enough : less (pos 0) (outstanding_canary_count r.state) ≡ false)
    (idle : in_progress_instances r.state ≡ []) where
  none_needed : less (pos 0) (operations_to_trigger_count settings.max_in_flight r.state) ≡ false
  unfolding operations_to_trigger_count
  none_needed =
      picked_none r.state.process_canaries
        (sub_ℕ settings.max_in_flight (count_in_progress_instances r.state))
        (outstanding_canary_count r.state) canaries enough

  not_processing : has_instances_processing r.state ≡ false
  unfolding has_instances_processing in_progress_instances
  not_processing = rw idle refl

  trigger_operation_none : trigger_operation env settings r ≡ r
  unfolding trigger_operation
  trigger_operation_none =
      either_way (is_zero (operations_to_trigger_count settings.max_in_flight r.state)) (
        trigger_from_none env (count_instances_in_current_phase r.state)
          (operations_to_trigger_count settings.max_in_flight r.state)
          (drop r.state.position r.state.guids) r none_needed)

  round_none : round env settings r ≡ r
  unfolding round poll_running_tasks poll_all
  round_none = rw (trigger_operation_none, idle) refl

  -- While the canaries are processed: once as many are triggered as are wanted, none is in
  -- progress, one is left pending and fewer than wanted have completed, the loop over the
  -- instances in progress never ends, whatever fuel it is given.
  pub canary_loop_never_ends :
      has_instances_to_process r.state ≡ true
      → canaries_completed r.state ≡ false
      → (fuel : ℕ) → process_loop env settings fuel r ≡ none
  unfolding process_loop current_phase_is_complete
  canary_loop_never_ends pending_left incomplete zero = refl
  canary_loop_never_ends pending_left incomplete (suc fuel) =
      rw
        (pending_left, process_loop, round_none, not_processing, round_none, phase_open, round_none)
        (canary_loop_never_ends pending_left incomplete fuel)
    where
      phase_open : r.state.process_canaries && current_phase_is_complete r.state ≡ false
      phase_open = rw (canaries, incomplete) refl
