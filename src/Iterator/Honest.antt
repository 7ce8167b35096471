-- ===== src/Iterator/Honest.antt =====
-- On the failures that instanceiterator/iterator.go records in the main phase.
use mathlib.Core.Logic.{◌≢◌}
use on_demand_service_broker.Prelude.{
  ℕ, ◌+◌, ◌≡◌, refl, ap, ◌∙◌, sym, inl, inr, Bool-cases, false, ltb, some, List, [], ◌∷◌, ◌++◌,
  String, ◌==◌, All, length, arith,
}
use on_demand_service_broker.Prelude.Dict.{Dict, lookup, insert}
use on_demand_service_broker.IteratorState.Data.{
  OperationState, failed, pending, in_progress, accepted, Instance, InstanceInfo, IteratorState,
  info_of,
}
use on_demand_service_broker.IteratorState.Queries.{
  get_instances_in_states, has_failures, has_instances_to_process, all_final, all_completed,
  is_final_state, get_guids_in_states, guids_of,
}
use on_demand_service_broker.IteratorState.Updates.{set_state, set_operation}
use on_demand_service_broker.IteratorState.Tally.{
  tally, hits, IsOrdered, processable-Found, length-get_instances_in_states,
}
use on_demand_service_broker.IteratorState.Entry.{
  set_state-IsOrdered, set_operation-IsOrdered, lookup-set_operation,
}
use on_demand_service_broker.Iterator.Data.{Env, Settings, InstanceFailure, Run}
use on_demand_service_broker.Iterator.Steps.{operations_to_trigger_count, trigger_operation}
use on_demand_service_broker.Iterator.Loops.{round}
use on_demand_service_broker.Iterator.TriggerRule.{IsKept, Triggers, trigger_operation-keeps}
use on_demand_service_broker.Iterator.PollRule.{IsPollKept, poll_running_tasks-keeps}

abbrev pub NoneFailed : Dict InstanceInfo → Type 0
NoneFailed states = All (λ e. e.1.status ≢ failed) states

pub record IsHonest (s : IteratorState) (fs : List InstanceFailure) : Type 0 where
  pub ordered : IsOrdered s
  pub main : s.process_canaries ≡ false
  pub recorded : fs ≡ [] → NoneFailed s.states

insert-NoneFailed :
    (guid : String) (new : InstanceInfo) (m : Dict InstanceInfo)
    → new.status ≢ failed
    → NoneFailed m
    → NoneFailed (insert guid new m)
unfolding insert
insert-NoneFailed guid new [] h n = (h, tt)
insert-NoneFailed guid new (e ∷ m) h n = elim (Bool-cases (e.0 == guid)) [
  | inl hit ↦ rw hit (h, n.1)
  | inr miss ↦ rw miss (n.0, insert-NoneFailed guid new m h n.1)
]

never_empty : {A : Type 0} (xs : List A) (x : A) → xs ++ x ∷ [] ≢ []
never_empty [] x h = cc
never_empty (y ∷ xs) x h = cc

pending_info :
    (states : Dict InstanceInfo) (guid : String) (info : InstanceInfo)
    → lookup guid states ≡ some info
    → info.status ≡ pending
    → (info_of states guid).status ≢ failed
unfolding info_of
pending_info states guid info h k e = let q : info.status ≡ failed = rw h at e in cc

trigger_kept : (needed : _) → IsKept (λ state. state ≢ failed) needed (λ n s fs. IsHonest s fs)
unfolding set_state set_operation
trigger_kept needed = record {
  moves = λ n s fs p. record {
    ordered = record { listed = p.ordered.listed; distinct = p.ordered.distinct };
    main = p.main;
    recorded = p.recorded;
  };
  fails = λ n s fs guid f more can p.
      let found = processable-Found s guid can in
      record {
        ordered = set_state-IsOrdered s guid found.info found.there failed p.ordered;
        main = p.main;
        recorded = λ e. absurd (never_empty fs _ e);
      };
  operates = λ n s fs guid op more can allowed p.
      let found = processable-Found s guid can in
      let s' = set_operation guid op s in
      record {
        ordered =
            set_state-IsOrdered s' guid (record found.info { operation = op })
              (lookup-set_operation s guid found.info found.there op) op.state
              (set_operation-IsOrdered s guid found.info found.there op p.ordered);
        main = p.main;
        recorded = λ e.
            insert-NoneFailed guid (record (info_of s'.states guid) { status = op.state }) s'.states
              allowed
              (insert-NoneFailed guid (record (info_of s.states guid) { operation = op }) s.states
                (pending_info s.states guid found.info found.there found.is_pending)
                (p.recorded e));
      };
}

poll_kept : IsPollKept (λ _. Unit) IsHonest
unfolding set_state
poll_kept = record {
  fails = λ s fs guid f a p. record {
    ordered = set_state-IsOrdered s guid a.info a.there failed p.ordered;
    main = p.main;
    recorded = λ e. absurd (never_empty fs _ e);
  };
  operates = λ s fs guid state a _ settled p. record {
    ordered = set_state-IsOrdered s guid a.info a.there state p.ordered;
    main = p.main;
    recorded = λ e.
        insert-NoneFailed guid (record (info_of s.states guid) { status = state }) s.states settled
          (p.recorded e);
  };
}

pub round-IsHonest :
    {W : Type 0} (env : Env W) (settings : Settings) (r : Run W)
    → Triggers env (λ state. state ≢ failed)
    → IsHonest r.state r.failures
    → let r' = round env settings r in IsHonest r'.state r'.failures
unfolding round
round-IsHonest env settings r triggers h =
    let t =
      (trigger_operation-keeps env settings r (λ state. state ≢ failed) (λ n s fs. IsHonest s fs)
        (trigger_kept (operations_to_trigger_count settings.max_in_flight r.state)) triggers
        (λ e. cc) h).1 in
    poll_running_tasks-keeps env (trigger_operation env settings r) (λ _. Unit) IsHonest poll_kept
      (λ guid d w w' op e. tt) t.ordered.distinct t

-- What the counts say of the entries.
none_hit : (m : Dict InstanceInfo) → NoneFailed m → tally (hits false (failed ∷ [])) m ≡ 0
none_hit [] h = refl
none_hit ((k, info) ∷ m) h = omega (arith, missed info.status h.0, none_hit m h.1)
  where
    missed :
        (state : OperationState)
        → state ≢ failed
        → hits false (failed ∷ []) (record info { status = state }) ≡ 0
    missed failed n = absurd (n refl)
    missed state n = ground arith

weigh :
    (info : InstanceInfo)
    → is_final_state info.status ≡ false
    → hits false (pending ∷ accepted ∷ []) info + hits false (in_progress ∷ []) info ≡ 1
weigh info h = go info.status h
  where
    go :
        (state : OperationState)
        → is_final_state state ≡ false
        → hits false (pending ∷ accepted ∷ []) (record info { status = state })
            + hits false (in_progress ∷ []) (record info { status = state })
          ≡ 1
    go pending h = refl
    go accepted h = refl
    go in_progress h = refl
    go state h = ground arith

some_busy :
    (m : Dict InstanceInfo)
    → all_final m ≡ false
    → tally (hits false (pending ∷ accepted ∷ [])) m ≡ 0
    → tally (hits false (in_progress ∷ [])) m ≢ 0
some_busy [] h k e = cc
some_busy ((key, info) ∷ m) h k e = elim (Bool-cases (is_final_state info.status)) [
  | inl final ↦ some_busy m (rw final at h) (omega arith) (omega arith)
  | inr open_still ↦ absurd (omega (arith, weigh info open_still))
]

module _ (s : IteratorState) (o : IsOrdered s) (main : s.process_canaries ≡ false) where
  counted :
      (sts : List OperationState)
      → length (get_instances_in_states s sts) ≡ tally (hits false sts) s.states
  counted sts = length-get_instances_in_states s sts o ∙ ap (λ c. tally (hits c sts) s.states) main

  pub none_failed_lem : NoneFailed s.states → has_failures s ≡ false
  unfolding has_failures
  none_failed_lem n = rw (counted (failed ∷ []), none_hit s.states n) refl

  -- With nothing to process, an instance that is not final is busy.
  pub busy_left :
      has_instances_to_process s ≡ false
      → all_completed s ≡ false
      → get_guids_in_states s (in_progress ∷ []) ≢ []
  unfolding has_instances_to_process all_completed get_guids_in_states
  busy_left h k e =
      some_busy s.states k (sym (counted (pending ∷ accepted ∷ [])) ∙ zero_of _ h)
        (sym (counted (in_progress ∷ [])) ∙ emptied _ e)
    where
      zero_of : (n : ℕ) → ltb 0 n ≡ false → n ≡ 0
      zero_of n e = ground arith

      emptied : (is : List Instance) → guids_of is ≡ [] → length is ≡ 0
      emptied [] e = refl
      emptied (i ∷ is) e = cc
