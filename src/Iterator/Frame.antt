-- ===== src/Iterator/Frame.antt =====
-- On the instances that a round of the loop of instanceiterator/iterator.go leaves alone.
use mathlib.Core.Logic.{◌≢◌}
use on_demand_service_broker.Prelude.{
  ◌≡◌, refl, sym, ap, ◌∙◌, subst, inl, inr, Bool, true, false, Bool-cases, Option, some, List,
  String, ◌==◌, eq_iff,
}
use on_demand_service_broker.Prelude.Dict.{lookup, lookup-insert, Distinct}
use on_demand_service_broker.IteratorState.Data.{
  OperationState, accepted, failed, pending, InstanceInfo, TriggeredOperation, IteratorState,
  info_of,
}
use on_demand_service_broker.IteratorState.Queries.{processable}
use on_demand_service_broker.IteratorState.Updates.{set_state, set_operation}
use on_demand_service_broker.IteratorState.Tally.{processable-Found}
use on_demand_service_broker.Iterator.Data.{Env, Settings, Run}
use on_demand_service_broker.Iterator.Steps.{trigger_operation, poll_running_tasks}
use on_demand_service_broker.Iterator.Loops.{round}
use on_demand_service_broker.Iterator.TriggerRule.{trigger_operation-keeps}
use on_demand_service_broker.Iterator.PollRule.{IsAccepted, poll_running_tasks-keeps}

-- The entry of one guid in a state, with the list of all guids and the phase.
record Has (guid : String) (entry : Option InstanceInfo) (guids : List String) (canaries : Bool)
    (s : IteratorState) : Type 0 where
  has : lookup guid s.states ≡ entry
  all : s.guids ≡ guids
  phase : s.process_canaries ≡ canaries

module _ (guid : String) (entry : Option InstanceInfo) (guids : List String) (canaries : Bool) where
  set_state-Has :
      (other : String) (state : OperationState) (s : IteratorState)
      → other ≢ guid
      → Has guid entry guids canaries s
      → Has guid entry guids canaries (set_state other state s)
  unfolding set_state
  set_state-Has other state s apart h = record {
    has =
        lookup-insert other guid (record (info_of s.states other) { status = state }) s.states
        ∙ elim (Bool-cases (other == guid)) [
          | inl e ↦ absurd (apart ((eq_iff other guid).0 e))
          | inr e ↦ rw e h.has
        ];
    all = h.all;
    phase = h.phase;
  }

  set_operation-Has :
      (other : String) (op : TriggeredOperation) (s : IteratorState)
      → other ≢ guid
      → Has guid entry guids canaries s
      → Has guid entry guids canaries (set_operation other op s)
  unfolding set_operation
  set_operation-Has other op s apart h = record {
    has =
        lookup-insert other guid (record (info_of s.states other) { operation = op }) s.states
        ∙ elim (Bool-cases (other == guid)) [
          | inl e ↦ absurd (apart ((eq_iff other guid).0 e))
          | inr e ↦ rw e h.has
        ];
    all = h.all;
    phase = h.phase;
  }

  module _
      (unmet : (s : IteratorState)
        → Has guid entry guids canaries s
        → processable s guid ≡ false) where
    apart :
        (s : IteratorState) (other : String)
        → processable s other ≡ true
        → Has guid entry guids canaries s
        → other ≢ guid
    apart s other can h e = cc (unmet s h, subst (λ g. processable s g ≡ true) e can)

    trigger_keeps :
        {W : Type 0} (env : Env W) (settings : Settings) (r : Run W)
        → Has guid entry guids canaries r.state
        → Has guid entry guids canaries (trigger_operation env settings r).state
    trigger_keeps env settings r h =
        (trigger_operation-keeps env settings r (λ _. Unit)
          (λ n s fs. Has guid entry guids canaries s)
          (record {
            moves = λ n s fs p. record { has = p.has; all = p.all; phase = p.phase };
            fails =
                λ n s fs other f more can p. set_state-Has other failed s (apart s other can p) p;
            operates = λ n s fs other op more can _ p.
                set_state-Has other op.state (set_operation other op s) (apart s other can p)
                  (set_operation-Has other op s (apart s other can p) p);
          })
          (λ i w w' op e. tt) tt h).1

  poll_keeps :
      {W : Type 0} (env : Env W) (r : Run W)
      → Distinct guids
      → ((s : IteratorState) → Has guid entry guids canaries s → ¬ IsAccepted s guid)
      → Has guid entry guids canaries r.state
      → Has guid entry guids canaries (poll_running_tasks env r).state
  poll_keeps env r distinct idle h =
      poll_running_tasks-keeps env r (λ _. Unit) (λ s fs. Has guid entry guids canaries s)
        (record {
          fails = λ s fs other f a p. set_state-Has other failed s (elsewhere s other a p) p;
          operates =
              λ s fs other state a _ _ p. set_state-Has other state s (elsewhere s other a p) p;
        })
        (λ g d w w' op e. tt) (subst Distinct (sym h.all) distinct) h
    where
      elsewhere :
          (s : IteratorState) (other : String)
          → IsAccepted s other
          → Has guid entry guids canaries s
          → other ≢ guid
      elsewhere s other a p e = idle s p (subst (λ g. IsAccepted s g) e a)

some-injective : {a b : InstanceInfo} → some a ≡ some b → a ≡ b
some-injective e = cc

module _ {W : Type 0} (env : Env W) (settings : Settings) (r : Run W) (guid : String)
    (info : InstanceInfo) (there : lookup guid r.state.states ≡ some info) where
  -- While the canaries are processed, the trigger leaves every instance that is no canary as it
  -- is.
  pub trigger_operation_only_canaries :
      r.state.process_canaries ≡ true
      → info.could_be_canary ≡ false
      → lookup guid (trigger_operation env settings r).state.states ≡ some info
  unfolding processable info_of
  trigger_operation_only_canaries canaries other =
      (trigger_keeps guid (some info) r.state.guids true (λ s h. rw (h.has, h.phase, other) refl)
        env settings r (record { has = there; all = refl; phase = canaries })).has

  -- A round of the loop leaves every instance that is neither pending nor in progress as it is.
  pub round_keeps_settled :
      Distinct r.state.guids
      → info.status ≢ pending
      → info.status ≢ accepted
      → lookup guid (round env settings r).state.states ≡ some info
  unfolding round
  round_keeps_settled distinct not_pending not_accepted =
      let canaries = r.state.process_canaries in
      (poll_keeps guid (some info) r.state.guids canaries env (trigger_operation env settings r)
        distinct
        (λ s h a.
          not_accepted (ap (λ i. i.status) (some-injective (sym h.has ∙ a.there)) ∙ a.running))
        (trigger_keeps guid (some info) r.state.guids canaries unmet env settings r
          (record { has = there; all = refl; phase = refl }))).has
    where
      unmet :
          (s : IteratorState)
          → Has guid (some info) r.state.guids r.state.process_canaries s
          → processable s guid ≡ false
      unmet s h = elim (Bool-cases (processable s guid)) [
        | inr e ↦ e
        | inl e ↦
            let found = processable-Found s guid e in
            absurd (
              not_pending
                (ap (λ i. i.status) (some-injective (sym h.has ∙ found.there)) ∙ found.is_pending))
      ]
