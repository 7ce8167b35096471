-- ===== src/Iterator/Measure.antt =====
-- What is left to do for instanceiterator/iterator.go once the canaries are done, as a number.
use mathlib.Core.Logic.{◌≢◌}
use on_demand_service_broker.Prelude.{
  ℕ, ◌+◌, ◌≤◌, ◌≡◌, refl, ap, ◌∙◌, inl, inr, Bool-cases, Option, String, ◌==◌, eq_iff,
  if◌then◌else◌, arith,
}
use on_demand_service_broker.Prelude.Dict.{Dict, lookup-insert}
use on_demand_service_broker.OperationData.{OperationData}
use on_demand_service_broker.IteratorState.Data.{
  OperationState, accepted, pending, Instance, TriggeredOperation, InstanceInfo, IteratorState,
  info_of, or_no_info,
}
use on_demand_service_broker.IteratorState.Updates.{set_state, set_operation}
use on_demand_service_broker.IteratorState.Tally.{tally}
use on_demand_service_broker.Iterator.Data.{Reply, replied, refused, Env, Run}

-- A pending instance has a trigger and a poll before it, an operation in progress a poll.
abbrev pub load : OperationState → ℕ
load pending = 2
load accepted = 1
load _ = 0

abbrev pub load_of : InstanceInfo → ℕ
load_of info = load info.status

pub load_small : (state : OperationState) → state ≢ pending → load state ≤ 1
load_small pending h = absurd (h refl)
load_small accepted h = omega arith
load_small _ h = ground arith

abbrev pub reply_load : Reply TriggeredOperation → ℕ
reply_load (replied op) = load op.state
reply_load (refused e) = 0

-- The number `rest` of an outside world bounds how often the checks still answer that an operation is
-- in progress: no call raises it, and each such answer lowers it. No call answers with `pending`.
pub record Settles {W : Type 0} (env : Env W) (rest : W → ℕ) : Type 0 where
  pub lists : (filter : Option (Dict String)) (w : W) → rest (env.instances filter w).1 ≤ rest w
  pub triggers : (i : Instance) (w : W) → rest (env.trigger i w).1 ≤ rest w
  pub checks :
      (guid : String) (d : OperationData) (w : W)
      → rest (env.check guid d w).1 + reply_load (env.check guid d w).0 ≤ rest w
  pub trigger_settles :
      (i : Instance) (w w' : W) (op : TriggeredOperation)
      → env.trigger i w ≡ (replied op, w')
      → op.state ≢ pending
  pub check_settles :
      (guid : String) (d : OperationData) (w w' : W) (op : TriggeredOperation)
      → env.check guid d w ≡ (replied op, w')
      → op.state ≢ pending

module _ {W : Type 0} (rest : W → ℕ) where
  abbrev pub measure : Run W → ℕ
  measure r = tally load_of r.state.states + rest r.world

abbrev pub status_of : IteratorState → String → OperationState
unfolding info_of
status_of s guid = (info_of s.states guid).status

pub status_of-set_state :
    (guid other : String) (state : OperationState) (s : IteratorState)
    → status_of (set_state guid state s) other
      ≡ (if guid == other then state else status_of s other)
unfolding set_state info_of
status_of-set_state guid other state s =
    ap (λ o. (or_no_info o).status)
      (lookup-insert guid other (record (info_of s.states guid) { status = state }) s.states)
    ∙ elim (Bool-cases (guid == other)) [ inl e ↦ rw e refl | inr e ↦ rw e refl ]

pub status_of-set_operation :
    (guid other : String) (op : TriggeredOperation) (s : IteratorState)
    → status_of (set_operation guid op s) other ≡ status_of s other
unfolding set_operation info_of
status_of-set_operation guid other op s =
    ap (λ o. (or_no_info o).status)
      (lookup-insert guid other (record (info_of s.states guid) { operation = op }) s.states)
    ∙ elim (Bool-cases (guid == other)) [
      | inl e ↦ rw e (ap (λ g. (info_of s.states g).status) ((eq_iff guid other).0 e))
      | inr e ↦ rw e refl
    ]
