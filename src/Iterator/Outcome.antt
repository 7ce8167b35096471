-- ===== src/Iterator/Outcome.antt =====
-- On the result of the main phase of instanceiterator/iterator.go.
use mathlib.Core.Logic.{◌≢◌}
use on_demand_service_broker.Prelude.{
  ℕ, zero, suc, ◌+◌, ◌≤◌, ◌≡◌, refl, ◌∙◌, sym, subst, ◌⊎◌, inl, inr, Bool-cases, true, false, ltb,
  Option, none, some, List, [], ◌∷◌, length,
}
use on_demand_service_broker.Prelude.Dict.{Dict}
use on_demand_service_broker.IteratorState.Data.{failed, in_progress, state_eq, InstanceInfo}
use on_demand_service_broker.IteratorState.Queries.{
  has_failures, has_instances_to_process, has_instances_processing, all_completed,
  current_phase_is_complete, get_guids_in_states,
}
use on_demand_service_broker.IteratorState.Updates.{reset_busy, rewind_and_reset_busy_instances}
use on_demand_service_broker.Iterator.Data.{
  Env, Settings, InstanceFailure, IteratorError, Run, emit, slept_polling_interval,
  slept_attempt_interval,
}
use on_demand_service_broker.Iterator.Loops.{
  LoopEnd, loop_done, loop_returns, round, rewind, log_retry_attempt, error_from_list, format_error,
  check_still_busy_instances, still_busy, report_progress, process_loop, after_loop, attempts,
  iterate_instances_with_attempts,
}
use on_demand_service_broker.Iterator.TriggerRule.{Triggers}
use on_demand_service_broker.Iterator.Measure.{Settles}
use on_demand_service_broker.Iterator.Ends.{
  enough, keys-reset_busy, iterate_instances_with_attempts_ends,
}
use on_demand_service_broker.Iterator.Honest.{
  IsHonest, NoneFailed, round-IsHonest, none_failed_lem, busy_left,
}

reset-NoneFailed : (m : Dict InstanceInfo) → NoneFailed m → NoneFailed (reset_busy m)
reset-NoneFailed [] h = tt
reset-NoneFailed ((k, info) ∷ m) h = elim (Bool-cases (state_eq info.status in_progress)) [
  | inl busy ↦ rw busy ((λ e. cc), reset-NoneFailed m h.1)
  | inr other ↦ rw other (h.0, reset-NoneFailed m h.1)
]

module _ {W : Type 0} (env : Env W) (settings : Settings)
    (triggers : Triggers env (λ state. state ≢ failed)) where
  abbrev LoopIsHonest : Option (LoopEnd W) → Type 0
  LoopIsHonest none = Unit
  LoopIsHonest (some (loop_returns e r)) = ⊥
  LoopIsHonest (some (loop_done r)) =
      IsHonest r.state r.failures × (has_instances_to_process r.state ≡ false)

  process_loop-honest :
      (fuel : ℕ) (r : Run W)
      → IsHonest r.state r.failures
      → LoopIsHonest (process_loop env settings fuel r)
  unfolding process_loop
  process_loop-honest zero r h = tt
  process_loop-honest (suc fuel) r h = elim (Bool-cases (has_instances_to_process r.state)) [
    | inr over ↦ rw (over, process_loop) (h, over)
    | inl more ↦
        (let r1 = round env settings r in
          let h1 = round-IsHonest env settings r triggers h in
          elim (Bool-cases (has_instances_processing r1.state)) [
            | inl busy ↦
                rw (more, busy, process_loop)
                  (process_loop-honest fuel (emit slept_polling_interval r1) h1)
            | inr idle ↦ rw (more, idle, h1.main, process_loop) (process_loop-honest fuel r1 h1)
          ])
  ]

  -- No error means that every instance is final and none has failed.
  abbrev Reports : Option (Option IteratorError × Run W) → Type 0
  Reports none = Unit
  Reports (some (some e, r)) = Unit
  Reports (some (none, r)) = (all_completed r.state ≡ true) × (has_failures r.state ≡ false)

  -- A list of failures, empty only if no instance has failed, gives an error where one has.
  failures_reported :
      (r : Run W) (fs : List InstanceFailure)
      → (fs ≡ [] → ⊥)
      → Reports (some (error_from_list fs, r))
  unfolding error_from_list
  failures_reported r [] h = absurd (h refl)
  failures_reported r (f ∷ []) h = tt
  failures_reported r (f ∷ g ∷ fs) h = tt

  format_main :
      (r : Run W) → r.state.process_canaries ≡ false → format_error r ≡ error_from_list r.failures
  unfolding format_error
  format_main r h = rw h refl

  completed_reported :
      (e : Option IteratorError) (r : Run W)
      → all_completed r.state ≡ true
      → has_failures r.state ≡ false
      → Reports (some (e, r))
  completed_reported none r h k = (h, k)
  completed_reported (some e) r h k = tt

  busy_reported :
      (r : Run W) (guids : List _)
      → r.state.process_canaries ≡ false
      → guids ≢ []
      → Reports (some (still_busy r guids, r))
  unfolding still_busy
  busy_reported r [] main h = absurd (h refl)
  busy_reported r (guid ∷ guids) main h = rw main tt

  abbrev Next : (Run W → Option (Option IteratorError × Run W)) → Type 0
  Next again =
      (r : Run W)
      → IsHonest r.state r.failures
      → has_instances_to_process r.state ≡ false
      → all_completed r.state ≡ false
      → Reports (again (emit slept_attempt_interval (report_progress r)))

  after_loop-Reports :
      (again : Run W → Option (Option IteratorError × Run W)) (x : Option (LoopEnd W))
      → LoopIsHonest x
      → Next again
      → Reports (after_loop env settings again x)
  unfolding after_loop report_progress format_error current_phase_is_complete
  after_loop-Reports again none h next = tt
  after_loop-Reports again (some (loop_returns e r)) h next = absurd h
  after_loop-Reports again (some (loop_done r)) (h, over) next =
      elim (Bool-cases (has_failures r.state)) [
        | inl some_failed ↦
            rw (some_failed, after_loop)
              (subst (λ e. Reports (some (e, r))) (sym (format_main r h.main))
                (failures_reported r r.failures
                  (λ e. cc (none_failed_lem r.state h.ordered h.main (h.recorded e), some_failed))))
        | inr none_failed ↦ elim (Bool-cases (all_completed r.state)) [
          | inl complete ↦
              rw (none_failed, after_loop, h.main, complete)
                (completed_reported (check_still_busy_instances (report_progress r))
                  (report_progress r) complete none_failed)
          | inr undone ↦ rw (none_failed, after_loop, h.main, undone) (next r h over undone)
        ]
      ]

  rewind-IsHonest :
      (attempt : ℕ) (r : Run W)
      → IsHonest r.state r.failures
      → let r' = log_retry_attempt settings attempt (rewind r) in IsHonest r'.state r'.failures
  unfolding rewind rewind_and_reset_busy_instances log_retry_attempt
  rewind-IsHonest attempt r h = rw h.main (record {
    ordered = record {
      listed = keys-reset_busy r.state.states ∙ h.ordered.listed;
      distinct = h.ordered.distinct;
    };
    main = refl;
    recorded = λ e. reset-NoneFailed r.state.states (h.recorded e);
  })

  attempts-report :
      (fuel left attempt : ℕ) (r : Run W)
      → IsHonest r.state r.failures
      → Reports (attempts env settings fuel (suc left) attempt r)
  unfolding attempts report_progress check_still_busy_instances
  attempts-report fuel zero attempt r h =
      after_loop-Reports (λ q. attempts env settings fuel zero (attempt + 1) q)
        (process_loop env settings fuel (log_retry_attempt settings attempt (rewind r)))
        (process_loop-honest fuel (log_retry_attempt settings attempt (rewind r))
          (rewind-IsHonest attempt r h))
        (λ r1 h1 over undone.
          busy_reported (emit slept_attempt_interval (report_progress r1))
            (get_guids_in_states r1.state (in_progress ∷ [])) h1.main
            (busy_left r1.state h1.ordered h1.main over undone))
  attempts-report fuel (suc left) attempt r h =
      after_loop-Reports (λ q. attempts env settings fuel (suc left) (attempt + 1) q)
        (process_loop env settings fuel (log_retry_attempt settings attempt (rewind r)))
        (process_loop-honest fuel (log_retry_attempt settings attempt (rewind r))
          (rewind-IsHonest attempt r h))
        (λ r1 h1 over undone.
          attempts-report fuel left (attempt + 1) (emit slept_attempt_interval (report_progress r1))
            h1)

  said :
      (e : Option IteratorError) (r : Run W) (o : Option (Option IteratorError × Run W))
      → o ≡ some (e, r)
      → Reports o
      → (e ≢ none) ⊎ ((all_completed r.state ≡ true) × (has_failures r.state ≡ false))
  said none r o q h = inr (subst Reports q h)
  said (some e) r o q h = inl (λ p. cc)

  -- The main phase returns, and it returns an error or leaves every instance in a final state and
  -- none failed. This holds where maxInFlight and the attempt limit are positive, the polls that
  -- find an operation still in progress are bounded, no call answers with the state of an instance
  -- that is not started, the trigger never answers with the state failed, the phase begins with the
  -- failure of every failed instance recorded, and the fuel is what the bound gives.
  pub iterate_instances_with_attempts_outcome :
      (rest : W → ℕ) (settles : Settles env rest) (fuel left : ℕ) (r : Run W)
      → ltb 0 settings.max_in_flight ≡ true
      → settings.attempt_limit ≡ suc left
      → IsHonest r.state r.failures
      → enough (suc left) (length r.state.guids) (rest r.world) + 1 ≤ fuel
      → (e : Option IteratorError) × (r' : Run W) × (iterate_instances_with_attempts env settings
            fuel r
          ≡ some (e, r'))
        × ((e ≢ none) ⊎ ((all_completed r'.state ≡ true) × (has_failures r'.state ≡ false)))
  unfolding iterate_instances_with_attempts
  iterate_instances_with_attempts_outcome rest settles fuel left r some_allowed limit h bound =
      let (e, r', q, _, _) =
        iterate_instances_with_attempts_ends rest env settles settings some_allowed fuel left r
          h.ordered h.main limit bound in
      (
        e,
        r',
        q,
        said e r' _ q (
            subst (λ n. Reports (attempts env settings fuel n 1 r)) (sym limit)
              (attempts-report fuel left 1 r h)),
      )
