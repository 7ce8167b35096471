-- ===== src/Iterator/InFlight.antt =====
-- On the number of operations in progress in a round of the loop of instanceiterator/iterator.go.
use on_demand_service_broker.Prelude.{
  ℕ, ◌+◌, ◌≤◌, ◌≡◌, refl, sym, ◌∙◌, ◌⊎◌, inl, inr, Bool, true, String, arith,
}
use on_demand_service_broker.Prelude.Int.{ℤ, pos, less}
use on_demand_service_broker.IteratorState.Data.{
  OperationState, accepted, failed, state_eq, IteratorState,
}
use on_demand_service_broker.IteratorState.Queries.{count_in_progress_instances}
use on_demand_service_broker.IteratorState.Updates.{set_state, set_operation}
use on_demand_service_broker.IteratorState.Tally.{tally, IsOrdered, processable-Found}
use on_demand_service_broker.IteratorState.Entry.{
  set_state-IsOrdered, set_operation-IsOrdered, tally-set_state, lookup-set_operation,
}
use on_demand_service_broker.Iterator.Data.{Env, Settings, Run}
use on_demand_service_broker.Iterator.Steps.{operations_to_trigger_count, trigger_operation}
use on_demand_service_broker.Iterator.Loops.{round}
use on_demand_service_broker.Iterator.TriggerRule.{IsKept, trigger_operation-keeps}
use on_demand_service_broker.Iterator.PollRule.{IsAccepted, IsPollKept, poll_running_tasks-keeps}
use on_demand_service_broker.Iterator.Running.{
  running, running_restated, room, count_in_progress_lem, failed_count, operated_count, one_more,
  bound_kept,
}

-- At `n` operations more than at first, the state is in order, in the same phase and within the
-- limit.
record IsWithin (max base : ℕ) (canaries : Bool) (n : ℕ) (s : IteratorState) : Type 0 where
  ordered : IsOrdered s
  phase : s.process_canaries ≡ canaries
  count : tally (running canaries) s.states ≡ base + n
  bound : (n ≡ 0) ⊎ (base + n ≤ max)

module _ (max base : ℕ) (canaries : Bool) (needed : ℤ)
    (spare : (n : ℕ) → less (pos n) needed ≡ true → base + n + 1 ≤ max) where
  trigger_kept : IsKept (λ _. Unit) needed (λ n s _. IsWithin max base canaries n s)
  unfolding set_state set_operation
  trigger_kept = record {
    moves = λ n s fs p. record {
      ordered = record { listed = p.ordered.listed; distinct = p.ordered.distinct };
      phase = p.phase;
      count = p.count;
      bound = p.bound;
    };
    fails = λ n s fs guid f more can p.
        let found = processable-Found s guid can in
        record {
          ordered = set_state-IsOrdered s guid found.info found.there failed p.ordered;
          phase = p.phase;
          count = failed_count s guid canaries p.phase can ∙ p.count;
          bound = p.bound;
        };
    operates = λ n s fs guid op more can _ p.
        let found = processable-Found s guid can in
        let s' = set_operation guid op s in
        record {
          ordered =
              set_state-IsOrdered s' guid _ (lookup-set_operation s guid found.info found.there op)
                op.state (set_operation-IsOrdered s guid found.info found.there op p.ordered);
          phase = p.phase;
          count =
              one_more (state_eq op.state accepted) (tally (running canaries) s.states) _ base n
                p.count (operated_count s guid canaries p.phase can op);
          bound = bound_kept (state_eq op.state accepted) base n max p.bound (spare n more);
        };
  }

-- The same while the operations are polled, when their number only falls.
record IsBelow (max : ℕ) (canaries : Bool) (s : IteratorState) : Type 0 where
  ordered : IsOrdered s
  phase : s.process_canaries ≡ canaries
  count : tally (running canaries) s.states ≤ max

restated-IsBelow :
    (max : ℕ) (canaries : Bool) (s : IteratorState) (guid : String) (state : OperationState)
    → IsAccepted s guid
    → IsBelow max canaries s
    → IsBelow max canaries (set_state guid state s)
unfolding set_state
restated-IsBelow max canaries s guid state a p = record {
  ordered = set_state-IsOrdered s guid a.info a.there state p.ordered;
  phase = p.phase;
  count = omega (
    arith,
    tally-set_state s guid a.info a.there (running canaries) state,
    running_restated canaries a.info state a.running,
    p.count,
  );
}

poll_kept : (max : ℕ) (canaries : Bool) → IsPollKept (λ _. Unit) (λ s _. IsBelow max canaries s)
poll_kept max canaries = record {
  fails = λ s fs guid f a p. restated-IsBelow max canaries s guid failed a p;
  operates = λ s fs guid state a _ _ p. restated-IsBelow max canaries s guid state a p;
}

module _ {W : Type 0} (env : Env W) (settings : Settings) (r : Run W) (ordered : IsOrdered r.state)
    (within : count_in_progress_instances r.state ≤ settings.max_in_flight) where
  triggered_within :
      let s = (trigger_operation env settings r).state in
      IsBelow settings.max_in_flight r.state.process_canaries s
  triggered_within =
      let count = count_in_progress_instances r.state in
      let (m, p) =
        trigger_operation-keeps env settings r (λ _. Unit)
          (λ n s _. IsWithin settings.max_in_flight count r.state.process_canaries n s)
          (trigger_kept settings.max_in_flight count r.state.process_canaries
            (operations_to_trigger_count settings.max_in_flight r.state)
            (λ n h. room settings.max_in_flight n r.state h))
          (λ i w w' op h. tt) tt
          (record {
            ordered = ordered;
            phase = refl;
            count = sym (count_in_progress_lem r.state ordered) ∙ omega arith;
            bound = inl refl;
          }) in
      record {
        ordered = p.ordered;
        phase = p.phase;
        count = elim p.bound [
          | inl none ↦ omega (arith, p.count, none, within)
          | inr some ↦ omega (arith, p.count, some)
        ];
      }

  -- A round of the loop over the instances in progress, which triggers and then polls, keeps the
  -- list of the guids in order and the number of operations in progress within `maxInFlight`, if
  -- they are so before; this holds also between the two.
  pub round_in_flight :
      let s = (trigger_operation env settings r).state in
      let s' = (round env settings r).state in
      (IsOrdered s × (count_in_progress_instances s ≤ settings.max_in_flight))
      × (IsOrdered s' × (count_in_progress_instances s' ≤ settings.max_in_flight))
  unfolding round
  round_in_flight =
      let t = triggered_within in
      let p =
        poll_running_tasks-keeps env (trigger_operation env settings r) (λ _. Unit)
          (λ s _. IsBelow settings.max_in_flight r.state.process_canaries s)
          (poll_kept settings.max_in_flight r.state.process_canaries) (λ guid d w w' op h. tt)
          t.ordered.distinct t in
      ((t.ordered, below _ t), (p.ordered, below _ p))
    where
      below :
          (s : IteratorState)
          → IsBelow settings.max_in_flight r.state.process_canaries s
          → count_in_progress_instances s ≤ settings.max_in_flight
      below s b = rw (count_in_progress_lem s b.ordered, b.phase) b.count
