-- ===== src/Iterator/Loops.antt =====
-- instanceiterator/iterator.go: Iterate and IterateInstancesWithAttempts.
-- The loop over the instances in progress may run without end, so it takes fuel; `none` means that
-- the fuel ran out.
use on_demand_service_broker.Prelude.{
  ℕ, zero, suc, ◌+◌, length, true, false, not, ◌&&◌, Option, none, some, List, [], ◌∷◌, String,
  if◌then◌else◌,
}
use on_demand_service_broker.Prelude.Int.{sub_ℕ}
use on_demand_service_broker.IteratorState.Data.{in_progress}
use on_demand_service_broker.IteratorState.Queries.{
  summary, get_guids_in_states, has_instances_to_process, has_instances_processing, has_failures,
  current_phase_is_complete, canaries_completed, outstanding_canary_count,
}
use on_demand_service_broker.IteratorState.Updates.{rewind_and_reset_busy_instances}
use on_demand_service_broker.Iterator.Data.{
  Env, Settings, InstanceFailure, IteratorError, one_failure, several_failures, canaries_failed,
  canaries_busy, instances_busy, Run, emit, with_state, retry_attempt, retry_canaries_attempt,
  progress, finished, slept_polling_interval, slept_attempt_interval,
}
use on_demand_service_broker.Iterator.Steps.{trigger_operation, poll_running_tasks}

unfoldable pub error_from_list : List InstanceFailure → Option IteratorError
error_from_list [] = none
error_from_list (f ∷ []) = some (one_failure f.failure)
error_from_list (f ∷ g ∷ fs) = some (several_failures (f ∷ g ∷ fs))

-- errors.Wrap of nil is nil.
abbrev wrap_canaries : Option IteratorError → Option IteratorError
wrap_canaries none = none
wrap_canaries (some e) = some (canaries_failed e)

abbrev failed_guids : List InstanceFailure → List String
failed_guids [] = []
failed_guids (f ∷ fs) = f.guid ∷ failed_guids fs

module _ {W : Type 0} where
  unfoldable pub format_error : Run W → Option IteratorError
  unfolding error_from_list
  format_error r =
      if r.state.process_canaries
      then wrap_canaries (error_from_list r.failures)
      else error_from_list r.failures

  unfoldable pub still_busy : Run W → List String → Option IteratorError
  unfolding canaries_completed
  still_busy r [] = none
  still_busy r (guid ∷ guids) =
      if r.state.process_canaries
      then (if not (canaries_completed r.state)
          then some (canaries_busy r.canaries (sub_ℕ r.canaries (length (guid ∷ guids))))
          else none)
      else some (instances_busy (guid ∷ guids))

  unfoldable pub check_still_busy_instances : Run W → Option IteratorError
  unfolding get_guids_in_states canaries_completed still_busy
  check_still_busy_instances r = still_busy r (get_guids_in_states r.state (in_progress ∷ []))

  unfoldable pub print_summary : Run W → Run W
  unfolding summary get_guids_in_states
  print_summary r =
      let s = summary r.state in
      emit
        (finished s.orphaned s.succeeded_count s.skipped_count s.deleted
          (get_guids_in_states r.state (in_progress ∷ [])) (failed_guids r.failures))
        r

  unfoldable pub report_progress : Run W → Run W
  unfolding summary
  report_progress r =
      let s = summary r.state in
      emit (progress s.orphaned s.succeeded_count s.skipped_count s.busy s.deleted) r

  unfoldable pub log_retry_attempt : Settings → ℕ → Run W → Run W
  unfolding outstanding_canary_count
  log_retry_attempt settings attempt r =
      if r.state.process_canaries
      then emit
          (retry_canaries_attempt attempt settings.attempt_limit (outstanding_canary_count r.state))
          r
      else emit (retry_attempt attempt settings.attempt_limit) r

  unfoldable pub rewind : Run W → Run W
  unfolding rewind_and_reset_busy_instances
  rewind r = with_state (rewind_and_reset_busy_instances r.state) r

  -- The two calls at the top of the loop over the instances in progress.
  unfoldable pub round : Env W → Settings → Run W → Run W
  unfolding trigger_operation poll_running_tasks
  round env settings r = poll_running_tasks env (trigger_operation env settings r)

-- The loop over the instances in progress ends by its test, or the function returns from it.
pub data LoopEnd (W : Type 0) : Type 0 where
  loop_done : Run W → LoopEnd W
  loop_returns : Option IteratorError → Run W → LoopEnd W

module _ {W : Type 0} (env : Env W) (settings : Settings) where
  unfoldable pub process_loop : ℕ → Run W → Option (LoopEnd W)
  unfolding has_instances_to_process has_instances_processing current_phase_is_complete format_error
      round
  process_loop zero r = none
  process_loop (suc fuel) r = elim (has_instances_to_process r.state) [
    | false ↦ some (loop_done r)
    | true ↦
        let r' = round env settings r in
        elim (has_instances_processing r'.state) [
          | true ↦ process_loop fuel (emit slept_polling_interval r')
          | false ↦ elim (r'.state.process_canaries && current_phase_is_complete r'.state) [
            | true ↦ some (loop_returns (format_error r') r')
            | false ↦ process_loop fuel r'
          ]
        ]
  ]

  abbrev pub Outcome : Type 0
  Outcome = Option (Option IteratorError × Run W)

  -- What an attempt does after the loop over the instances in progress; `again` is the next one.
  unfoldable pub after_loop : (Run W → Outcome) → Option (LoopEnd W) → Outcome
  unfolding has_failures format_error report_progress current_phase_is_complete
      check_still_busy_instances
  after_loop again none = none
  after_loop again (some (loop_returns e r)) = some (e, r)
  after_loop again (some (loop_done r)) = elim (has_failures r.state) [
    | true ↦ some (format_error r, r)
    | false ↦
        let r' = report_progress r in
        elim (current_phase_is_complete r'.state) [
          | true ↦ some (check_still_busy_instances r', r')
          | false ↦ again (emit slept_attempt_interval r')
        ]
  ]

  -- `attempt` counts up while the attempts that are left count down.
  unfoldable pub attempts : ℕ → (left attempt : ℕ) → Run W → Outcome
  unfolding process_loop check_still_busy_instances rewind log_retry_attempt after_loop
  attempts fuel zero attempt r = some (check_still_busy_instances r, r)
  attempts fuel (suc left) attempt r =
      after_loop (λ r'. attempts fuel left (attempt + 1) r')
        (process_loop fuel (log_retry_attempt settings attempt (rewind r)))

  unfoldable pub iterate_instances_with_attempts : ℕ → Run W → Outcome
  unfolding attempts
  iterate_instances_with_attempts fuel r = attempts fuel settings.attempt_limit 1 r
