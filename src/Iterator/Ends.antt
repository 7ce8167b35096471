-- ===== src/Iterator/Ends.antt =====
-- On the end of the main phase of instanceiterator/iterator.go.
use on_demand_service_broker.Prelude.{
  ℕ, zero, suc, ◌+◌, ◌*◌, ◌≤◌, ◌≡◌, refl, ap, ◌∙◌, sym, subst, inl, inr, Bool-cases, true, false,
  Option, some, List, [], ◌∷◌, length, String, ltb, arith,
}
use on_demand_service_broker.Prelude.Dict.{Dict, keys}
use on_demand_service_broker.IteratorState.Data.{OperationState, accepted, pending, InstanceInfo}
use on_demand_service_broker.IteratorState.Queries.{
  has_instances_to_process, has_instances_processing, has_failures, current_phase_is_complete,
}
use on_demand_service_broker.IteratorState.Updates.{reset_busy, rewind_and_reset_busy_instances}
use on_demand_service_broker.IteratorState.Tally.{tally, IsOrdered}
use on_demand_service_broker.Iterator.Data.{
  Env, Settings, Run, IteratorError, emit, slept_polling_interval, slept_attempt_interval,
}
use on_demand_service_broker.Iterator.Loops.{
  loop_done, round, rewind, log_retry_attempt, process_loop, after_loop, attempts, report_progress,
  iterate_instances_with_attempts,
}
use on_demand_service_broker.Iterator.Measure.{load, load_of, Settles, measure}
use on_demand_service_broker.Iterator.Place.{IsAt}
use on_demand_service_broker.Iterator.Waiting.{round-Lowers}

load_bound : (state : OperationState) → load state ≤ 2
load_bound pending = omega arith
load_bound accepted = omega arith
load_bound _ = ground arith

tally_bound : (m : Dict InstanceInfo) → tally load_of m ≤ 2 * length (keys m)
tally_bound [] = omega arith
tally_bound ((k, info) ∷ m) = omega (arith, load_bound info.status, tally_bound m)

pub keys-reset_busy : (m : Dict InstanceInfo) → keys (reset_busy m) ≡ keys m
keys-reset_busy [] = refl
keys-reset_busy ((k, info) ∷ m) = ap (λ ks. k ∷ ks) (keys-reset_busy m)

-- The run at the end of the loop: in the main phase, in order, with the same guids and nothing to
-- process.
record Done {W : Type 0} (rest : W → ℕ) (r r' : Run W) : Type 0 where
  ordered : IsOrdered r'.state
  main : r'.state.process_canaries ≡ false
  guids : r'.state.guids ≡ r.state.guids
  less_left : rest r'.world ≤ measure rest r
  settled : has_instances_to_process r'.state ≡ false

-- Fuel for so many attempts: each reset may make every instance pending again.
abbrev pub enough : (left size rest : ℕ) → ℕ
enough zero size rest = rest
enough (suc left) size rest = 2 * size + enough left size rest

enough_later :
    (left size rest rest' : ℕ)
    → rest' ≤ 2 * size + rest
    → enough left size rest' ≤ enough (suc left) size rest
enough_later zero size rest rest' h = h
enough_later (suc left) size rest rest' h = omega (arith, enough_later left size rest rest' h)

enough_first : (left size rest : ℕ) → 2 * size + rest ≤ enough (suc left) size rest
enough_first zero size rest = omega arith
enough_first (suc left) size rest = omega (arith, enough_first left size rest)

module _ {W : Type 0} (rest : W → ℕ) (env : Env W) (settles : Settles env rest)
    (settings : Settings) (some_allowed : ltb 0 settings.max_in_flight ≡ true) where
  process_loop-ends :
      (fuel : ℕ) (done todo : List String) (r : Run W)
      → IsAt done todo r.state
      → measure rest r + 1 ≤ fuel
      → (r' : Run W) × (process_loop env settings fuel r ≡ some (loop_done r')) × Done rest r r'
  unfolding process_loop
  process_loop-ends zero done todo r a h = absurd (omega arith)
  process_loop-ends (suc fuel) done todo r a h =
      elim (Bool-cases (has_instances_to_process r.state)) [
        | inr over ↦ (
          r,
          rw (over, process_loop) refl,
          record {
            ordered = a.ordered;
            main = a.main;
            guids = refl;
            less_left = omega arith;
            settled = over;
          },
        )
        | inl more ↦
            (let r1 = round env settings r in
              let l = round-Lowers rest env settles settings some_allowed done todo r a more in
              let (done', todo', a') = l.0 in
              let next = process_loop-ends fuel done' todo' r1 a' (omega (arith, l.1, h)) in
              let slept =
                process_loop-ends fuel done' todo' (emit slept_polling_interval r1) a'
                  (omega (arith, l.1, h)) in
              elim (Bool-cases (has_instances_processing r1.state)) [
                | inl busy ↦ (
                  slept.0,
                  rw (more, busy, process_loop) slept.1,
                  later (emit slept_polling_interval r1) slept.0 l.2 l.1 slept.2,
                )
                | inr idle ↦ (
                  next.0,
                  rw (more, idle, a'.main, process_loop) next.1,
                  later r1 next.0 l.2 l.1 next.2,
                )
              ])
      ]
    where
      later :
          (r1 r' : Run W)
          → r1.state.guids ≡ r.state.guids
          → measure rest r1 + 1 ≤ measure rest r
          → Done rest r1 r'
          → Done rest r r'
      later r1 r' e h d = record {
        ordered = d.ordered;
        main = d.main;
        guids = d.guids ∙ e;
        less_left = omega (arith, d.less_left, h);
        settled = d.settled;
      }

  -- Each attempt starts at the first guid.
  started-IsAt :
      (attempt : ℕ) (r : Run W)
      → IsOrdered r.state
      → r.state.process_canaries ≡ false
      → IsAt [] r.state.guids (log_retry_attempt settings attempt (rewind r)).state
        × (measure rest (log_retry_attempt settings attempt (rewind r))
            ≤ 2 * length r.state.guids + rest r.world)
        × ((log_retry_attempt settings attempt (rewind r)).state.guids ≡ r.state.guids)
  unfolding rewind rewind_and_reset_busy_instances log_retry_attempt
  started-IsAt attempt r o main = rw main (
    record {
      split = refl;
      place = refl;
      passed = tt;
      ordered = record {
        listed = keys-reset_busy r.state.states ∙ o.listed;
        distinct = o.distinct;
      };
      main = refl;
    },
    omega (
      arith,
      tally_bound (reset_busy r.state.states),
      ap (λ ks. length ks) (keys-reset_busy r.state.states ∙ o.listed),
    ),
    refl,
  )

  -- The result of the attempts, with nothing to process left.
  abbrev Settled : Run W → Option (Option IteratorError × Run W) → Type 0
  Settled r o =
      (e : Option IteratorError) × (r' : Run W) × (o ≡ some (e, r'))
      × (has_instances_to_process r'.state ≡ false)
      × (r'.state.guids ≡ r.state.guids)

  after_loop-settles :
      (again : Run W → Option (Option IteratorError × Run W)) (r r1 : Run W)
      → has_instances_to_process r1.state ≡ false
      → r1.state.guids ≡ r.state.guids
      → Settled r (again (emit slept_attempt_interval (report_progress r1)))
      → Settled r (after_loop env settings again (some (loop_done r1)))
  unfolding after_loop report_progress
  after_loop-settles again r r1 over same next = elim (Bool-cases (has_failures r1.state)) [
    | inl some_failed ↦ rw (some_failed, after_loop) (_, r1, refl, over, same)
    | inr none_failed ↦ elim (Bool-cases (current_phase_is_complete r1.state)) [
      | inl complete ↦
          rw (none_failed, after_loop, complete) (_, report_progress r1, refl, over, same)
      | inr undone ↦ rw (none_failed, after_loop, undone) next
    ]
  ]

  attempt_ends :
      (fuel left attempt : ℕ) (r : Run W)
      → IsOrdered r.state
      → r.state.process_canaries ≡ false
      → 2 * length r.state.guids + rest r.world + 1 ≤ fuel
      → ((r1 : Run W)
          → Done rest (log_retry_attempt settings attempt (rewind r)) r1
          → Settled r (
              attempts env settings fuel left
                (attempt + 1)
                (emit slept_attempt_interval (report_progress r1))))
      → Settled r (attempts env settings fuel (suc left) attempt r)
  unfolding attempts
  attempt_ends fuel left attempt r o main h next =
      let at = started-IsAt attempt r o main in
      let first = log_retry_attempt settings attempt (rewind r) in
      let (r1, e, d) =
        process_loop-ends fuel [] r.state.guids first at.0 (omega (arith, at.1, h)) in
      let again = λ (q : Run W). attempts env settings fuel left (attempt + 1) q in
      subst (λ x. Settled r (after_loop env settings again x)) (sym e)
        (after_loop-settles again r r1 d.settled (d.guids ∙ at.2) (next r1 d))

  attempts-end :
      (fuel left attempt : ℕ) (r : Run W)
      → IsOrdered r.state
      → r.state.process_canaries ≡ false
      → enough (suc left) (length r.state.guids) (rest r.world) + 1 ≤ fuel
      → Settled r (attempts env settings fuel (suc left) attempt r)
  unfolding attempts report_progress
  attempts-end fuel zero attempt r o main h = attempt_ends fuel zero attempt r o main h (λ r1 d. (
    _,
    emit slept_attempt_interval (report_progress r1),
    refl,
    d.settled,
    d.guids ∙ (started-IsAt attempt r o main).2,
  ))
  attempts-end fuel (suc left) attempt r o main h =
      let at = started-IsAt attempt r o main in
      let size = length r.state.guids in
      attempt_ends fuel (suc left) attempt r o main
        (omega (arith, enough_first (suc left) size (rest r.world), h))
        (λ r1 d.
          let r2 = emit slept_attempt_interval (report_progress r1) in
          let same = d.guids ∙ at.2 in
          let later =
            enough_later (suc left) size (rest r.world) (rest r1.world)
              (omega (arith, d.less_left, at.1)) in
          let (e, r', q, over, g) = attempts-end fuel left (attempt + 1) r2 d.ordered d.main (
            subst (λ gs. enough (suc left) (length gs) (rest r1.world) + 1 ≤ fuel) (sym same)
              (omega (arith, later, h))) in
          (e, r', q, over, g ∙ same))

  -- The main phase ends: where maxInFlight and the attempt limit are positive, no call raises a bound
  -- on the number of polls that find an operation still in progress, each such poll lowers it, and no
  -- call answers with the state of an instance that is not started, IterateInstancesWithAttempts
  -- returns with the fuel that the bound gives; it leaves the list of the guids as it is and no
  -- instance pending or in progress.
  pub iterate_instances_with_attempts_ends :
      (fuel left : ℕ) (r : Run W)
      → IsOrdered r.state
      → r.state.process_canaries ≡ false
      → settings.attempt_limit ≡ suc left
      → enough (suc left) (length r.state.guids) (rest r.world) + 1 ≤ fuel
      → (e : Option IteratorError) × (r' : Run W) × (iterate_instances_with_attempts env settings
            fuel r
          ≡ some (e, r'))
        × (has_instances_to_process r'.state ≡ false)
        × (r'.state.guids ≡ r.state.guids)
  unfolding iterate_instances_with_attempts
  iterate_instances_with_attempts_ends fuel left r o main limit h =
      subst (λ n. Settled r (attempts env settings fuel n 1 r)) (sym limit)
        (attempts-end fuel left 1 r o main h)
