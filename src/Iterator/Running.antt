-- ===== src/Iterator/Running.antt =====
-- Counting the operations in progress of instanceiterator/iterator.go.
use on_demand_service_broker.Prelude.{
  ℕ, ◌+◌, ◌≤◌, ◌≡◌, refl, ◌⊎◌, inl, inr, Bool, true, false, Bool-cases, [], ◌∷◌, String, leb,
  if◌then◌else◌, arith,
}
use on_demand_service_broker.Prelude.Int.{ℤ, pos, negsuc, sub_ℕ, less, at_most}
use on_demand_service_broker.IteratorState.Data.{
  OperationState, accepted, failed, pending, state_eq, InstanceInfo, TriggeredOperation,
  IteratorState,
}
use on_demand_service_broker.IteratorState.Queries.{
  left_out, in_progress_instances, count_in_progress_instances, processable,
  outstanding_canary_count,
}
use on_demand_service_broker.IteratorState.Updates.{set_state, set_operation}
use on_demand_service_broker.IteratorState.Tally.{
  tally, hits, IsOrdered, length-get_instances_in_states, processable-Found,
}
use on_demand_service_broker.IteratorState.Entry.{
  tally-set_state, tally-set_operation, lookup-set_operation,
}
use on_demand_service_broker.Iterator.Steps.{operations_to_trigger_count}

abbrev pub running : Bool → InstanceInfo → ℕ
running canaries info = hits canaries (accepted ∷ []) info

pub running_pending :
    (canaries : Bool) (info : InstanceInfo) → info.status ≡ pending → running canaries info ≡ 0
running_pending canaries info h = elim (Bool-cases (left_out canaries info)) [
  | inl e ↦ rw e refl
  | inr e ↦ rw (e, h) refl
]

pub running_in_phase :
    (canaries : Bool) (info : InstanceInfo) (state : OperationState)
    → left_out canaries info ≡ false
    → running canaries (record info { status = state }) ≡ (if state_eq state accepted then 1 else 0)
running_in_phase canaries info state h = elim (Bool-cases (state_eq state accepted)) [
  | inl e ↦ rw (h, e) refl
  | inr e ↦ rw (h, e) refl
]

pub running_restated :
    (canaries : Bool) (info : InstanceInfo) (state : OperationState)
    → info.status ≡ accepted
    → running canaries (record info { status = state }) ≤ running canaries info
running_restated canaries info state h = elim (Bool-cases (left_out canaries info)) [
  | inl e ↦ rw e (omega arith)
  | inr e ↦
      rw (e, h)
        (elim (Bool-cases (state_eq state accepted)) [
          | inl same ↦ rw same (omega arith)
          | inr other ↦ rw other (omega arith)
        ])
]

pub less-at_most : (n : ℕ) (a b : ℤ) → less (pos n) (at_most a b) ≡ true → less (pos n) a ≡ true
less-at_most n (pos a) (pos b) h = ground arith
less-at_most n (pos a) (negsuc b) h = ground arith
less-at_most n (negsuc a) (pos b) h = ground arith
less-at_most n (negsuc a) (negsuc b) h = ground arith

pub less_picked :
    (n : ℕ) (b : Bool) (a c : ℤ)
    → less (pos n) (if b then at_most a c else a) ≡ true
    → less (pos n) a ≡ true
less_picked n true a c h = less-at_most n a c h
less_picked n false a c h = h

pub less-sub_ℕ : (n max count : ℕ) → less (pos n) (sub_ℕ max count) ≡ true → count + n + 1 ≤ max
less-sub_ℕ n max count h = elim (Bool-cases (leb count max)) [
  | inl e ↦ (let g = rw e at h in ground arith)
  | inr e ↦ (let g = rw e at h in ground arith)
]

-- Fewer operations than needed leave room for one more.
pub room :
    (max n : ℕ) (s : IteratorState)
    → less (pos n) (operations_to_trigger_count max s) ≡ true
    → count_in_progress_instances s + n + 1 ≤ max
unfolding operations_to_trigger_count
room max n s h = less-sub_ℕ n max (count_in_progress_instances s) (
    less_picked n s.process_canaries (sub_ℕ max (count_in_progress_instances s))
      (outstanding_canary_count s) h)

pub count_in_progress_lem :
    (s : IteratorState)
    → IsOrdered s
    → count_in_progress_instances s ≡ tally (running s.process_canaries) s.states
unfolding count_in_progress_instances in_progress_instances
count_in_progress_lem s o = length-get_instances_in_states s (accepted ∷ []) o

-- The update of a pending instance of the phase.
module _ (s : IteratorState) (guid : String) (canaries : Bool)
    (phase : s.process_canaries ≡ canaries) (can : processable s guid ≡ true) where
  pub failed_count :
      tally (running canaries) (set_state guid failed s).states ≡ tally (running canaries) s.states
  failed_count =
      let found = processable-Found s guid can in
      omega (
        arith,
        tally-set_state s guid found.info found.there (running canaries) failed,
        running_pending canaries found.info found.is_pending,
        running_in_phase canaries found.info failed (rw phase at found.in_phase),
      )

  pub operated_count :
      (op : TriggeredOperation)
      → tally (running canaries) (set_state guid op.state (set_operation guid op s)).states
        ≡ tally (running canaries) s.states + (if state_eq op.state accepted then 1 else 0)
  operated_count op =
      let found = processable-Found s guid can in
      let info' : InstanceInfo = record found.info { operation = op } in
      omega (
        arith,
        tally-set_operation s guid found.info found.there (running canaries) op,
        tally-set_state (set_operation guid op s) guid info'
            (lookup-set_operation s guid found.info found.there op) (running canaries) op.state,
        running_pending canaries found.info found.is_pending,
        running_pending canaries info' found.is_pending,
        running_in_phase canaries info' op.state (rw phase at found.in_phase),
      )

pub one_more :
    (b : Bool) (t t' base n : ℕ)
    → t ≡ base + n
    → t' ≡ t + (if b then 1 else 0)
    → t' ≡ base + (if b then n + 1 else n)
one_more true t t' base n h k = omega arith
one_more false t t' base n h k = omega arith

pub bound_kept :
    (b : Bool) (base n max : ℕ)
    → (n ≡ 0) ⊎ (base + n ≤ max)
    → base + n + 1 ≤ max
    → ((if b then n + 1 else n) ≡ 0) ⊎ (base + (if b then n + 1 else n) ≤ max)
bound_kept true base n max h k = inr (omega arith)
bound_kept false base n max h k = h
