-- ===== src/Iterator/Closing.antt =====
-- On the steps of the loops of instanceiterator/iterator.go that close an instance.
use mathlib.Core.Logic.{◌≢◌}
use on_demand_service_broker.Prelude.{
  ℕ, ◌+◌, ◌≤◌, ◌≡◌, refl, ap, ◌∙◌, sym, subst, inl, inr, Bool-cases, true, none, some, List, ◌∷◌,
  String, ◌==◌, eq_refl, arith,
}
use on_demand_service_broker.Prelude.Dict.{lookup}
use on_demand_service_broker.IteratorState.Data.{
  OperationState, accepted, pending, failed, Instance, TriggeredOperation, InstanceInfo,
  IteratorState, state_eq,
}
use on_demand_service_broker.IteratorState.Queries.{processable, get_iterator_index}
use on_demand_service_broker.IteratorState.Updates.{set_state, set_operation}
use on_demand_service_broker.IteratorState.Tally.{tally, IsOrdered, processable-Found}
use on_demand_service_broker.IteratorState.Entry.{
  set_state-IsOrdered, set_operation-IsOrdered, tally-set_state, tally-set_operation,
  lookup-set_operation,
}
use on_demand_service_broker.Iterator.Data.{
  Reply, replied, refused, Env, Run, emit, instance_operation_starting, LatestInfo, refreshed,
  not_found, refresh_failed, latest_instance_info, latest_of, find_instance,
  failed_to_refresh_instance_info,
}
use on_demand_service_broker.Iterator.Steps.{
  Round, stop, go_on, round_end, operation_on, trigger_round, add_failure,
}
use on_demand_service_broker.Iterator.Measure.{
  load, load_small, load_of, Settles, status_of, status_of-set_state, status_of-set_operation,
}

-- From one state and world to others: in the same place of the same phase, with less to do by `by`,
-- and nothing pending that was not.
pub record Closes {W : Type 0} (rest : W → ℕ) (by : ℕ) (s s' : IteratorState) (w w' : W)
    : Type 0 where
  pub guids : s'.guids ≡ s.guids
  pub position : s'.position ≡ s.position
  pub phase : s'.process_canaries ≡ s.process_canaries
  pub ordered : IsOrdered s → IsOrdered s'
  pub less_left : tally load_of s'.states + rest w' + by ≤ tally load_of s.states + rest w
  pub none_new : (guid : String) → status_of s guid ≢ pending → status_of s' guid ≢ pending

module _ {W : Type 0} (rest : W → ℕ) where
  pub refl-Closes : (s : IteratorState) (w : W) → Closes rest 0 s s w w
  refl-Closes s w = record {
    guids = refl;
    position = refl;
    phase = refl;
    ordered = λ o. o;
    less_left = omega arith;
    none_new = λ guid h. h;
  }

  pub trans-Closes :
      (a b : ℕ) (s s' s'' : IteratorState) (w w' w'' : W)
      → Closes rest a s s' w w'
      → Closes rest b s' s'' w' w''
      → Closes rest (a + b) s s'' w w''
  trans-Closes a b s s' s'' w w' w'' h k = record {
    guids = k.guids ∙ h.guids;
    position = k.position ∙ h.position;
    phase = k.phase ∙ h.phase;
    ordered = λ o. k.ordered (h.ordered o);
    less_left = omega (arith, h.less_left, k.less_left);
    none_new = λ guid n. k.none_new guid (h.none_new guid n);
  }

  not_pending_set :
      (guid : String) (s : IteratorState) (state : OperationState) (other : String)
      → state ≢ pending
      → status_of s other ≢ pending
      → status_of (set_state guid state s) other ≢ pending
  not_pending_set guid s state other h k =
      rw (status_of-set_state guid other state s)
        (elim (Bool-cases (guid == other)) [ inl e ↦ rw e h | inr e ↦ rw e k ])

  -- An entry is set to a state, with a world that has no more to do.
  pub set_state-Closes :
      (guid : String) (info : InstanceInfo) (state : OperationState) (by : ℕ) (s : IteratorState)
      (w w' : W)
      → lookup guid s.states ≡ some info
      → state ≢ pending
      → load state + rest w' + by ≤ load info.status + rest w
      → Closes rest by s (set_state guid state s) w w'
  unfolding set_state
  set_state-Closes guid info state by s w w' there settled lower = record {
    guids = refl;
    position = refl;
    phase = refl;
    ordered = λ o. set_state-IsOrdered s guid info there state o;
    less_left = omega (arith, tally-set_state s guid info there load_of state, lower);
    none_new = λ other h. not_pending_set guid s state other settled h;
  }

  set_operation-Closes :
      (guid : String) (info : InstanceInfo) (op : TriggeredOperation) (s : IteratorState) (w : W)
      → lookup guid s.states ≡ some info
      → Closes rest 0 s (set_operation guid op s) w w
  unfolding set_operation
  set_operation-Closes guid info op s w there = record {
    guids = refl;
    position = refl;
    phase = refl;
    ordered = λ o. set_operation-IsOrdered s guid info there op o;
    less_left = omega (arith, tally-set_operation s guid info there load_of op);
    none_new = λ other h. rw (status_of-set_operation guid other op s) h;
  }

  -- A pending instance is triggered.
  triggered-Closes :
      (guid : String) (info : InstanceInfo) (op : TriggeredOperation) (s : IteratorState) (w w' : W)
      → lookup guid s.states ≡ some info
      → info.status ≡ pending
      → op.state ≢ pending
      → rest w' ≤ rest w
      → Closes rest 1 s (set_state guid op.state (set_operation guid op s)) w w'
  triggered-Closes guid info op s w w' there waits settled lower =
      trans-Closes 0 1 s (set_operation guid op s) _ w w w'
        (set_operation-Closes guid info op s w there)
        (set_state-Closes guid (record info { operation = op }) op.state 1 (set_operation guid op s)
          w w' (lookup-set_operation s guid info there op) settled
          (rw waits (omega (arith, load_small op.state settled, lower))))

  -- A round of the loop of triggerOperation.
  abbrev pub RoundCloses : String → IteratorState → W → Round W → Type 0
  RoundCloses guid s w (stop r) =
      Closes rest 1 s r.state w r.world × (status_of r.state guid ≢ pending)
  RoundCloses guid s w (go_on _ r) =
      Closes rest 1 s r.state w r.world × (status_of r.state guid ≢ pending)

  closed_itself :
      (guid : String) (s : IteratorState) (state : OperationState)
      → state ≢ pending
      → status_of (set_state guid state s) guid ≢ pending
  closed_itself guid s state h = rw (status_of-set_state guid guid state s, eq_refl guid) h

  abbrev Answers : IteratorState → W → Reply TriggeredOperation × Run W → Type 0
  Answers s w (refused e, r) = (r.state ≡ s) × (rest r.world ≤ rest w)
  Answers s w (replied op, r) = (r.state ≡ s) × (rest r.world ≤ rest w) × (op.state ≢ pending)

  round_end-closes :
      (guid : String) (info : InstanceInfo) (s : IteratorState) (w : W)
      (answer : Reply TriggeredOperation × Run W)
      → lookup guid s.states ≡ some info
      → info.status ≡ pending
      → Answers s w answer
      → RoundCloses guid s w (round_end guid answer)
  unfolding set_state set_operation add_failure
  round_end-closes guid info s w (refused e, r) there waits a = (
    subst (λ x. Closes rest 1 s (set_state guid failed x) w r.world) (sym a.0)
        (set_state-Closes guid info failed 1 s w r.world there (λ e. cc)
          (rw waits (omega (arith, a.1)))),
    closed_itself guid r.state failed (λ e. cc),
  )
  round_end-closes guid info s w (replied op, r) there waits a =
      elim (Bool-cases (state_eq op.state accepted)) [ inl e ↦ rw e both | inr e ↦ rw e both ]
    where
      both :
          Closes rest 1 s (set_state guid op.state (set_operation guid op r.state)) w r.world
          × (status_of (set_state guid op.state (set_operation guid op r.state)) guid ≢ pending)
      both = (
        subst (λ x. Closes rest 1 s (set_state guid op.state (set_operation guid op x)) w r.world)
            (sym a.0) (triggered-Closes guid info op s w r.world there waits a.2 a.1),
        closed_itself guid (set_operation guid op r.state) op.state a.2,
      )

  module _ (env : Env W) (settles : Settles env rest) where
    operation_on-answers :
        (i : Instance) (latest : LatestInfo) (w0 w : W) (r : Run W)
        → rest w ≤ rest w0
        → Answers r.state w0 (operation_on env i (latest, w) r)
    operation_on-answers i not_found w0 w r h = (refl, h, λ e. cc)
    operation_on-answers i (refresh_failed e) w0 w r h = asked (env.trigger i w) refl
      where
        asked :
            (reply : Reply TriggeredOperation × W)
            → env.trigger i w ≡ reply
            → Answers r.state w0 (
              reply.0,
              record r {
                world = reply.1;
                events = failed_to_refresh_instance_info i.guid ∷ r.events;
              },
            )
        asked (refused _, w') k =
            (refl, omega (arith, h, settles.triggers i w, ap (λ x. rest x.1) k))
        asked (replied op, w') k = (
          refl,
          omega (arith, h, settles.triggers i w, ap (λ x. rest x.1) k),
          settles.trigger_settles i w w' op k,
        )
    operation_on-answers i (refreshed latest) w0 w r h = asked (env.trigger latest w) refl
      where
        asked :
            (reply : Reply TriggeredOperation × W)
            → env.trigger latest w ≡ reply
            → Answers r.state w0 (reply.0, record r { world = reply.1 })
        asked (refused _, w') k =
            (refl, omega (arith, h, settles.triggers latest w, ap (λ x. rest x.1) k))
        asked (replied op, w') k = (
          refl,
          omega (arith, h, settles.triggers latest w, ap (λ x. rest x.1) k),
          settles.trigger_settles latest w w' op k,
        )

    latest_of-world : (guid : String) (x : Reply (List Instance) × W) → (latest_of guid x).1 ≡ x.1
    unfolding find_instance
    latest_of-world guid (refused e, w) = refl
    latest_of-world guid (replied is, w) = refl

    pub trigger_round-closes :
        (total : ℕ) (i : Instance) (r : Run W)
        → processable r.state i.guid ≡ true
        → RoundCloses i.guid r.state r.world (trigger_round env total i r)
    unfolding trigger_round latest_instance_info
    trigger_round-closes total i r can =
        let found = processable-Found r.state i.guid can in
        let r' =
          emit
            (instance_operation_starting i.guid (get_iterator_index r.state) total
              r.state.process_canaries)
            r in
        let latest = latest_instance_info env i r.world in
        round_end-closes i.guid found.info r.state r.world (operation_on env i latest r')
          found.there found.is_pending
          (operation_on-answers i latest.0 r.world latest.1 r' (
            omega (
              arith,
              ap rest (latest_of-world i.guid (env.instances none r.world)),
              settles.lists none r.world,
            )))
