-- ===== src/Iterator/TriggerRule.antt =====
-- A rule for the loop of triggerOperation (instanceiterator/iterator.go): what each of its updates
-- of the state keeps, the whole call keeps.
use on_demand_service_broker.Prelude.{
  ℕ, ◌+◌, ◌≡◌, refl, sym, subst, ◌⊎◌, inl, inr, Bool-cases, Bool, true, false, drop, List, [], ◌∷◌,
  ◌++◌, String, if◌then◌else◌,
}
use on_demand_service_broker.Prelude.Int.{ℤ, pos, less, is_zero}
use on_demand_service_broker.IteratorState.Data.{
  OperationState, accepted, failed, instance_not_found, state_eq, Instance, TriggeredOperation,
  IteratorState,
}
use on_demand_service_broker.IteratorState.Queries.{
  processable, pending_instance, get_iterator_index, count_instances_in_current_phase,
}
use on_demand_service_broker.IteratorState.Updates.{set_state, set_operation}
use on_demand_service_broker.Iterator.Data.{
  Reply, replied, refused, Env, Settings, Failure, InstanceFailure, call_failed, emit,
  failed_to_refresh_instance_info, instance_operation_starting, LatestInfo, refreshed, not_found,
  refresh_failed, latest_instance_info, Run,
}
use on_demand_service_broker.Iterator.Steps.{
  operations_to_trigger_count, add_failure, Round, stop, go_on, operation_on, round_end,
  trigger_round, step_over, trigger_from, trigger_operation,
}

-- The trigger gives no state but those allowed.
abbrev pub Triggers : {W : Type 0} → Env W → (OperationState → Type 0) → Type 0
Triggers {W} env Allowed =
    (i : Instance) (w w' : W) (op : TriggeredOperation)
    → env.trigger i w ≡ (replied op, w')
    → Allowed op.state

-- A property of the number of operations accepted so far, the state and the failures, that each
-- update of the loop keeps.
pub record IsKept (Allowed : OperationState → Type 0) (needed : ℤ)
    (P : ℕ → IteratorState → List InstanceFailure → Type 0) : Type 0 where
  pub moves :
      (n : ℕ) (s : IteratorState) (fs : List InstanceFailure)
      → P n s fs
      → P n (record s { position = s.position + 1 }) fs
  pub fails :
      (n : ℕ) (s : IteratorState) (fs : List InstanceFailure) (guid : String) (f : Failure)
      → less (pos n) needed ≡ true
      → processable s guid ≡ true
      → P n s fs
      → P n (set_state guid failed s) (fs ++ record { guid = guid; failure = f } ∷ [])
  pub operates :
      (n : ℕ) (s : IteratorState) (fs : List InstanceFailure) (guid : String)
      (op : TriggeredOperation)
      → less (pos n) needed ≡ true
      → processable s guid ≡ true
      → Allowed op.state
      → P n s fs
      → P
          (if state_eq op.state accepted then n + 1 else n)
          (set_state guid op.state (set_operation guid op s))
          fs

pub Round-cases :
    {W : Type 0} (x : Round W)
    → ((r : Run W) × (x ≡ stop r))
      ⊎ ((r : Run W) × (x ≡ go_on true r))
      ⊎ ((r : Run W) × (x ≡ go_on false r))
Round-cases (stop r) = inl (r, refl)
Round-cases (go_on true r) = inr (inl (r, refl))
Round-cases (go_on false r) = inr (inr (r, refl))

module _ {W : Type 0} (env : Env W) {Allowed : OperationState → Type 0} {needed : ℤ}
    {P : ℕ → IteratorState → List InstanceFailure → Type 0} (kept : IsKept Allowed needed P)
    (triggers : Triggers env Allowed) (absent : Allowed instance_not_found) where
  abbrev Ends : ℕ → Round W → Type 0
  Ends n (stop r) = P n r.state r.failures
  Ends n (go_on true r) = P (n + 1) r.state r.failures
  Ends n (go_on false r) = P n r.state r.failures

  abbrev Answers : Run W → Reply TriggeredOperation × Run W → Type 0
  Answers r (refused e, r') = (r'.state ≡ r.state) × (r'.failures ≡ r.failures)
  Answers r (replied op, r') = (r'.state ≡ r.state) × (r'.failures ≡ r.failures) × Allowed op.state

  asked :
      (i : Instance) (r r' : Run W)
      → r'.state ≡ r.state
      → r'.failures ≡ r.failures
      → (reply : Reply TriggeredOperation × W) → env.trigger i r'.world ≡ reply
      → Answers r (reply.0, record r' { world = reply.1 })
  asked i r r' same_s same_f (refused _, w) h = (same_s, same_f)
  asked i r r' same_s same_f (replied op, w) h = (same_s, same_f, triggers i r'.world w op h)

  operation_on-Answers :
      (i : Instance) (latest : LatestInfo) (w : W) (r : Run W)
      → Answers r (operation_on env i (latest, w) r)
  operation_on-Answers i not_found w r = (refl, refl, absent)
  operation_on-Answers i (refresh_failed e) w r =
      asked i r (record r { world = w; events = failed_to_refresh_instance_info i.guid ∷ r.events })
        refl refl (env.trigger i w) refl
  operation_on-Answers i (refreshed latest) w r =
      asked latest r (record r { world = w }) refl refl (env.trigger latest w) refl

  moved :
      (n : ℕ) {s s' : IteratorState} {fs fs' : List InstanceFailure}
      → s' ≡ s
      → fs' ≡ fs
      → P n s fs
      → P n s' fs'
  moved n {s} {s'} {fs} {fs'} e f p =
      subst (λ x. P n x fs') (sym e) (subst (λ x. P n s x) (sym f) p)

  round_end-Ends :
      (n : ℕ) (guid : String) (r : Run W) (answer : Reply TriggeredOperation × Run W)
      → less (pos n) needed ≡ true
      → processable r.state guid ≡ true
      → P n r.state r.failures
      → Answers r answer
      → Ends n (round_end guid answer)
  unfolding set_state set_operation add_failure
  round_end-Ends n guid r (refused e, r') more can p a =
      kept.fails n r'.state r'.failures guid (call_failed e) more
        (subst (λ s. processable s guid ≡ true) (sym a.0) can) (moved n a.0 a.1 p)
  round_end-Ends n guid r (replied op, r') more can p a = go (state_eq op.state accepted) refl (
      kept.operates n r'.state r'.failures guid op more
        (subst (λ s. processable s guid ≡ true) (sym a.0) can) a.2 (moved n a.0 a.1 p))
    where
      go :
          (b : Bool)
          → state_eq op.state accepted ≡ b
          → P
              (if state_eq op.state accepted then n + 1 else n)
              (set_state guid op.state (set_operation guid op r'.state))
              r'.failures
          → Ends n (round_end guid (replied op, r'))
      go true e q = rw e (rw e at q)
      go false e q = rw e (rw e at q)

  trigger_round-Ends :
      (n total : ℕ) (i : Instance) (r : Run W)
      → less (pos n) needed ≡ true
      → processable r.state i.guid ≡ true
      → P n r.state r.failures
      → Ends n (trigger_round env total i r)
  unfolding trigger_round
  trigger_round-Ends n total i r more can p =
      let r' =
        emit
          (instance_operation_starting i.guid (get_iterator_index r.state) total
            r.state.process_canaries)
          r in
      let latest = latest_instance_info env i r.world in
      round_end-Ends n i.guid r' (operation_on env i latest r') more can p
        (operation_on-Answers i latest.0 latest.1 r')

  -- The loop ends with the property at some number of accepted operations.
  trigger_from-keeps :
      (n total : ℕ) (guids : List String) (r : Run W)
      → P n r.state r.failures
      → let r' = trigger_from env total needed n guids r in (m : ℕ) × P m r'.state r'.failures
  unfolding trigger_from
  trigger_from-keeps n total [] r p = (n, p)
  trigger_from-keeps n total (guid ∷ guids) r p = elim (Bool-cases (less (pos n) needed)) [
    | inr enough ↦ rw (enough, trigger_from) (n, p)
    | inl more ↦ elim (Bool-cases (processable r.state guid)) [
      | inr miss ↦
          rw (more, miss, trigger_from)
            (trigger_from-keeps n total guids (step_over r) (kept.moves n r.state r.failures p))
      | inl can ↦
          let r' = step_over r in
          let ends =
            trigger_round-Ends n total (pending_instance r.state guid) r' more can
              (kept.moves n r.state r.failures p) in
          elim (Round-cases (trigger_round env total (pending_instance r.state guid) r')) [
            | inl (q, e) ↦ rw (more, can, e, trigger_from) (n, subst (Ends n) e ends)
            | inr (inl (q, e)) ↦
                rw (more, can, e, trigger_from)
                  (trigger_from-keeps (n + 1) total guids q (subst (Ends n) e ends))
            | inr (inr (q, e)) ↦
                rw (more, can, e, trigger_from)
                  (trigger_from-keeps n total guids q (subst (Ends n) e ends))
          ]
    ]
  ]

pub trigger_operation-keeps :
    {W : Type 0} (env : Env W) (settings : Settings) (r : Run W) (Allowed : OperationState → Type 0)
    (P : ℕ → IteratorState → List InstanceFailure → Type 0)
    → IsKept Allowed (operations_to_trigger_count settings.max_in_flight r.state) P
    → Triggers env Allowed
    → Allowed instance_not_found
    → P 0 r.state r.failures
    → let r' = trigger_operation env settings r in (m : ℕ) × P m r'.state r'.failures
unfolding trigger_operation
trigger_operation-keeps env settings r Allowed P kept triggers absent p =
    let needed = operations_to_trigger_count settings.max_in_flight r.state in
    elim (Bool-cases (is_zero needed)) [
      | inl none_needed ↦ rw none_needed (0, p)
      | inr some_needed ↦ rw some_needed (
          trigger_from-keeps env kept triggers absent 0 (count_instances_in_current_phase r.state)
            (drop r.state.position r.state.guids) r p)
    ]
