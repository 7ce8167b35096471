-- ===== src/Iterator/Waiting.antt =====
-- On a round of the loop over the instances in progress of instanceiterator/iterator.go in the main
-- phase, and what is left to do after it.
use mathlib.Core.Logic.{◌≢◌}
use on_demand_service_broker.Prelude.{
  ℕ, ◌≤◌, ◌<◌, ◌≡◌, refl, ◌∙◌, sym, inl, inr, Bool-cases, Bool, true, false, List, [], ◌∷◌, ◌++◌,
  length, String, ltb, ltb→lt, All, if◌then◌else◌, arith,
}
use on_demand_service_broker.Prelude.Int.{ℤ, pos, less, sub_ℕ, at_most}
use on_demand_service_broker.Prelude.Dict.{Dict}
use on_demand_service_broker.IteratorState.Data.{
  OperationState, accepted, pending, failed, InstanceInfo, IteratorState, info_of, state_eq,
}
use on_demand_service_broker.IteratorState.Queries.{
  collect, get_instances_in_states, has_instances_to_process, in_progress_instances,
  count_in_progress_instances, outstanding_canary_count,
}
use on_demand_service_broker.IteratorState.Updates.{set_state, set_operation}
use on_demand_service_broker.IteratorState.Tally.{tally, IsOrdered, processable-Found}
use on_demand_service_broker.IteratorState.Entry.{
  set_state-IsOrdered, set_operation-IsOrdered, lookup-set_operation,
}
use on_demand_service_broker.Iterator.Data.{Env, Settings, Run}
use on_demand_service_broker.Iterator.Steps.{
  operations_to_trigger_count, trigger_operation, poll_running_tasks,
}
use on_demand_service_broker.Iterator.Loops.{round}
use on_demand_service_broker.Iterator.TriggerRule.{trigger_operation-keeps}
use on_demand_service_broker.Iterator.Running.{
  running, count_in_progress_lem, failed_count, operated_count,
}
use on_demand_service_broker.Iterator.Measure.{Settles, status_of}
use on_demand_service_broker.Iterator.Polling.{poll_running_tasks-Closes}
use on_demand_service_broker.Iterator.Place.{IsAt, IsAt-kept, gain}
use on_demand_service_broker.Iterator.Progress.{Lowers, trigger_operation-Lowers}

-- At least so many operations are in progress.
record IsAtLeast (base : ℕ) (s : IteratorState) : Type 0 where
  ordered : IsOrdered s
  main : s.process_canaries ≡ false
  count : base ≤ tally (running false) s.states

module _ {W : Type 0} (env : Env W) (settings : Settings) (r : Run W) (ordered : IsOrdered r.state)
    (main : r.state.process_canaries ≡ false) where
  -- The trigger ends no operation.
  none_ends :
      let s = (trigger_operation env settings r).state in
      count_in_progress_instances r.state ≤ count_in_progress_instances s
  unfolding set_state set_operation
  none_ends =
      let base = count_in_progress_instances r.state in
      let p =
        (trigger_operation-keeps env settings r (λ _. Unit) (λ n s fs. IsAtLeast base s)
          (record {
            moves = λ n s fs p. record {
              ordered = record { listed = p.ordered.listed; distinct = p.ordered.distinct };
              main = p.main;
              count = p.count;
            };
            fails = λ n s fs guid f more can p.
                let found = processable-Found s guid can in
                record {
                  ordered = set_state-IsOrdered s guid found.info found.there failed p.ordered;
                  main = p.main;
                  count = omega (arith, failed_count s guid false p.main can, p.count);
                };
            operates = λ n s fs guid op more can _ p.
                let found = processable-Found s guid can in
                let s' = set_operation guid op s in
                record {
                  ordered =
                      set_state-IsOrdered s' guid (record found.info { operation = op })
                        (lookup-set_operation s guid found.info found.there op) op.state
                        (set_operation-IsOrdered s guid found.info found.there op p.ordered);
                  main = p.main;
                  count = omega (arith, operated_count s guid false p.main can op, p.count);
                };
          })
          (λ i w w' op h. tt) tt
          (record {
            ordered = ordered;
            main = main;
            count = rw (count_in_progress_lem r.state ordered, main) (omega arith);
          })).1 in
      rw (count_in_progress_lem (trigger_operation env settings r).state p.ordered, p.main) p.count

-- Where no operation is in progress and one instance is to be processed, it is pending.
pending_listed :
    (states : Dict InstanceInfo) (guids : List String)
    → 0 < length (collect states false (pending ∷ accepted ∷ []) guids)
    → length (collect states false (accepted ∷ []) guids) ≡ 0
    → gain true states guids ≡ 1
unfolding collect info_of
pending_listed states [] h k = absurd (omega arith)
pending_listed states (guid ∷ guids) h k =
    elim (Bool-cases (state_eq (info_of states guid).status pending)) [
      | inl e ↦ rw e refl
      | inr e ↦ elim (Bool-cases (state_eq (info_of states guid).status accepted)) [
        | inl a ↦ absurd (omega (arith, (rw a at k)))
        | inr a ↦ rw e (pending_listed states guids (rw (e, a) at h) (rw a at k))
      ]
    ]

gain_passes :
    (s : IteratorState) (done todo : List String)
    → All (λ g. status_of s g ≢ pending) done
    → gain true s.states (done ++ todo) ≡ gain true s.states todo
unfolding info_of
gain_passes s [] todo h = refl
gain_passes s (guid ∷ done) todo h =
    elim (Bool-cases (state_eq (info_of s.states guid).status pending)) [
      | inl e ↦ absurd (h.0 (is_pending (info_of s.states guid).status e))
      | inr e ↦ rw e (gain_passes s done todo h.1)
    ]
  where
    is_pending : (state : OperationState) → state_eq state pending ≡ true → state ≡ pending
    is_pending pending h = refl
    is_pending state h = ground arith

picked_main :
    (b : Bool) (a c : ℤ)
    → b ≡ false
    → less (pos 0) a ≡ true
    → less (pos 0) (if b then at_most a c else a) ≡ true
picked_main true a c h k = cc
picked_main false a c h k = k

all_free : (max count : ℕ) → count ≡ 0 → ltb 0 max ≡ true → less (pos 0) (sub_ℕ max count) ≡ true
all_free max count h k = rw h (ground arith)

module _ {W : Type 0} (rest : W → ℕ) (env : Env W) (settles : Settles env rest)
    (settings : Settings) (some_allowed : ltb 0 settings.max_in_flight ≡ true) where
  -- With no operation in progress, more is to be triggered.
  more_needed :
      (s : IteratorState)
      → s.process_canaries ≡ false
      → count_in_progress_instances s ≡ 0
      → less (pos 0) (operations_to_trigger_count settings.max_in_flight s) ≡ true
  unfolding operations_to_trigger_count
  more_needed s main none =
      picked_main s.process_canaries (sub_ℕ settings.max_in_flight (count_in_progress_instances s))
        (outstanding_canary_count s) main
        (all_free settings.max_in_flight (count_in_progress_instances s) none some_allowed)

  gains :
      (done todo : List String) (s : IteratorState)
      → IsAt done todo s
      → has_instances_to_process s ≡ true
      → count_in_progress_instances s ≡ 0
      → gain (less (pos 0) (operations_to_trigger_count settings.max_in_flight s)) s.states todo ≡ 1
  unfolding has_instances_to_process get_instances_in_states count_in_progress_instances
      in_progress_instances
  gains done todo s a h none = rw (more_needed s a.main none) (
      sym (gain_passes s done todo a.passed)
      ∙ rw (← a.split)
          (pending_listed s.states s.guids (ltb→lt 0 _ (rw a.main at h)) (rw a.main at none)))

  pub round-Lowers :
      (done todo : List String) (r : Run W)
      → IsAt done todo r.state
      → has_instances_to_process r.state ≡ true
      → Lowers rest 1 r (round env settings r)
  unfolding round
  round-Lowers done todo r a h =
      let t = trigger_operation env settings r in
      let l = trigger_operation-Lowers rest env settles settings done todo r a in
      let (done', todo', a') = l.0 in
      let c = poll_running_tasks-Closes rest env settles t a'.ordered.distinct in
      let count = count_in_progress_instances r.state in
      let place : (d : List String) × (e : List String) × IsAt d e
            (poll_running_tasks env t).state =
        (
          done',
          todo',
          IsAt-kept rest _ done' todo' t.state (poll_running_tasks env t).state t.world
              (poll_running_tasks env t).world c a',
        ) in
      elim (Bool-cases (ltb 0 count)) [
        | inl busy ↦ (
          place,
          omega (
            arith,
            l.1,
            c.less_left,
            none_ends env settings r a.ordered a.main,
            ltb→lt 0 count busy,
          ),
          c.guids ∙ l.2,
        )
        | inr idle ↦ (
          place,
          omega (arith, l.1, c.less_left, gains done todo r.state a h (zero_of count idle)),
          c.guids ∙ l.2,
        )
      ]
    where
      zero_of : (n : ℕ) → ltb 0 n ≡ false → n ≡ 0
      zero_of n e = ground arith
