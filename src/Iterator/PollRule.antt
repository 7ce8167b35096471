-- ===== src/Iterator/PollRule.antt =====
-- A rule for the loop of pollRunningTasks (instanceiterator/iterator.go): what each of its updates
-- of the state keeps, the whole call keeps. The instances that it goes over are in progress until
-- their turn.
use mathlib.Core.Logic.{◌≢◌}
use on_demand_service_broker.Prelude.{
  ◌≡◌, refl, sym, subst, ap, ◌∙◌, inl, inr, Bool-cases, some, List, [], ◌∷◌, ◌++◌, String, ◌==◌,
  eq_iff, All, All-append,
}
use on_demand_service_broker.Prelude.Dict.{lookup, Distinct, lookup-insert}
use on_demand_service_broker.OperationData.{OperationData}
use on_demand_service_broker.IteratorState.Data.{
  OperationState, accepted, succeeded, failed, Instance, InstanceInfo, TriggeredOperation,
  IteratorState, info_of,
}
use on_demand_service_broker.IteratorState.Queries.{
  phase_in_states, collect, in_progress_instances, guids_of,
}
use on_demand_service_broker.IteratorState.Updates.{set_state, get_operation}
use on_demand_service_broker.IteratorState.Tally.{info_of-there, phase_accepted-cases}
use on_demand_service_broker.Iterator.Data.{
  Reply, replied, refused, Env, Failure, InstanceFailure, call_failed, operation_failed, Run,
}
use on_demand_service_broker.Iterator.Steps.{
  add_failure, polled, finish_poll, poll_all, poll_running_tasks,
}

-- The status of the guid is `accepted`.
pub record IsAccepted (s : IteratorState) (guid : String) : Type 0 where
  pub info : InstanceInfo
  pub there : lookup guid s.states ≡ some info
  pub running : info.status ≡ accepted

-- The check gives no state but those allowed.
abbrev pub Checks : {W : Type 0} → Env W → (OperationState → Type 0) → Type 0
Checks {W} env Allowed =
    (guid : String) (d : OperationData) (w w' : W) (op : TriggeredOperation)
    → env.check guid d w ≡ (replied op, w')
    → Allowed op.state

-- A property of the state and the failures that each update of the loop keeps.
pub record IsPollKept (Allowed : OperationState → Type 0)
    (P : IteratorState → List InstanceFailure → Type 0) : Type 0 where
  pub fails :
      (s : IteratorState) (fs : List InstanceFailure) (guid : String) (f : Failure)
      → IsAccepted s guid
      → P s fs
      → P (set_state guid failed s) (fs ++ record { guid = guid; failure = f } ∷ [])
  pub operates :
      (s : IteratorState) (fs : List InstanceFailure) (guid : String) (state : OperationState)
      → IsAccepted s guid
      → Allowed state
      → state ≢ failed
      → P s fs
      → P (set_state guid state s) fs

IsAccepted-set_state :
    (guid other : String) (state : OperationState) (s : IteratorState)
    → guid ≢ other
    → IsAccepted s other
    → IsAccepted (set_state guid state s) other
unfolding set_state
IsAccepted-set_state guid other state s apart a = record {
  info = a.info;
  there =
      lookup-insert guid other (record (info_of s.states guid) { status = state }) s.states
      ∙ elim (Bool-cases (guid == other)) [
        | inl e ↦ absurd (apart ((eq_iff guid other).0 e))
        | inr e ↦ rw e a.there
      ];
  running = a.running;
}

pub finish_poll-state :
    {W : Type 0} (guid : String) (op : TriggeredOperation) (state : OperationState) (r : Run W)
    → (finish_poll guid op state r).state ≡ r.state
unfolding add_failure
finish_poll-state guid op failed r = refl
finish_poll-state guid op succeeded r = refl
finish_poll-state guid op _ r = refl

module _ {W : Type 0} where
  -- Another instance is in progress after the poll of one if it was before.
  polled-IsAccepted :
      (guid other : String) (r : Run W) (reply : Reply TriggeredOperation × W)
      → guid ≢ other
      → IsAccepted r.state other
      → IsAccepted (polled guid reply r).state other
  unfolding set_state add_failure
  polled-IsAccepted guid other r (refused e, w) apart a =
      IsAccepted-set_state guid other failed r.state apart a
  polled-IsAccepted guid other r (replied op, w) apart a =
      subst (λ s. IsAccepted s other)
        (sym (
          finish_poll-state guid op op.state
            (record r { world = w; state = set_state guid op.state r.state })))
        (IsAccepted-set_state guid other op.state r.state apart a)

  -- The same for the instances of a list.
  pub others-IsAccepted :
      (guid : String) (is : List Instance) (r : Run W) (reply : Reply TriggeredOperation × W)
      → All (λ j. guid ≢ j) (guids_of is)
      → All (λ i. IsAccepted r.state i.guid) is
      → All (λ i. IsAccepted (polled guid reply r).state i.guid) is
  others-IsAccepted guid [] r reply apart a = tt
  others-IsAccepted guid (i ∷ is) r reply apart a = (
    polled-IsAccepted guid i.guid r reply apart.0 a.0,
    others-IsAccepted guid is r reply apart.1 a.1,
  )

module _ {W : Type 0} (env : Env W) {Allowed : OperationState → Type 0}
    {P : IteratorState → List InstanceFailure → Type 0} (kept : IsPollKept Allowed P)
    (checks : Checks env Allowed) where
  finish_poll-keeps :
      (guid : String) (op : TriggeredOperation) (state : OperationState) (w : W) (r : Run W)
      → IsAccepted r.state guid
      → Allowed state
      → P r.state r.failures
      → let r' =
          finish_poll guid op state
            (record r { world = w; state = set_state guid state r.state }) in
        P r'.state r'.failures
  unfolding add_failure
  finish_poll-keeps guid op failed w r a allowed p =
      kept.fails r.state r.failures guid
        (operation_failed guid op.operation_data.bosh_task_id op.description) a p
  finish_poll-keeps guid op succeeded w r a allowed p =
      kept.operates r.state r.failures guid succeeded a allowed (λ e. cc) p
  finish_poll-keeps guid op state w r a allowed p =
      kept.operates r.state r.failures guid _ a allowed (λ e. cc) p

  polled-keeps :
      (guid : String) (d : OperationData) (r : Run W) (reply : Reply TriggeredOperation × W)
      → env.check guid d r.world ≡ reply
      → IsAccepted r.state guid
      → P r.state r.failures
      → let r' = polled guid reply r in P r'.state r'.failures
  unfolding set_state add_failure
  polled-keeps guid d r (refused e, w) h a p =
      kept.fails r.state r.failures guid (call_failed e) a p
  polled-keeps guid d r (replied op, w) h a p =
      finish_poll-keeps guid op op.state w r a (checks guid d r.world w op h) p

  poll_all-keeps :
      (is : List Instance) (r : Run W)
      → Distinct (guids_of is)
      → All (λ i. IsAccepted r.state i.guid) is
      → P r.state r.failures
      → let r' = poll_all env is r in P r'.state r'.failures
  unfolding poll_all
  poll_all-keeps [] r d a p = p
  poll_all-keeps (i ∷ is) r d a p =
      let data_of = (get_operation r.state i.guid).operation_data in
      let reply = env.check i.guid data_of r.world in
      poll_all-keeps is (polled i.guid reply r) d.1 (others-IsAccepted i.guid is r reply d.0 a.1)
        (polled-keeps i.guid data_of r reply refl a.0 p)

-- The instances in progress are in progress, each listed once where the guids are distinct.
module _ (s : IteratorState) where
  phase_of : String → List Instance
  phase_of guid = phase_in_states s.process_canaries guid (info_of s.states guid) (accepted ∷ [])

  all_accepted_lem : (guid : String) → All (λ i. IsAccepted s i.guid) (phase_of guid)
  unfolding phase_of
  all_accepted_lem guid =
      elim (phase_accepted-cases s.process_canaries guid (info_of s.states guid)) [
        | inl e ↦ rw e tt
        | inr (running, e) ↦ rw e (
          record {
            info = info_of s.states guid;
            there = info_of-there s.states guid (λ u. cc);
            running = running;
          },
          tt,
        )
      ]

  accepted_apart :
      (guid other : String) → guid ≢ other → All (λ j. guid ≢ j) (guids_of (phase_of other))
  unfolding phase_of
  accepted_apart guid other apart =
      elim (phase_accepted-cases s.process_canaries other (info_of s.states other)) [
        | inl e ↦ rw e tt
        | inr (running, e) ↦ rw e (apart, tt)
      ]

  unfoldable pub collected : List String → List Instance
  collected guids = collect s.states s.process_canaries (accepted ∷ []) guids

  pub collected-IsAccepted :
      (guids : List String) → All (λ i. IsAccepted s i.guid) (collected guids)
  unfolding collect collected phase_of
  collected-IsAccepted [] = tt
  collected-IsAccepted (guid ∷ guids) =
      All-append _ (phase_of guid) (collected guids) (all_accepted_lem guid)
        (collected-IsAccepted guids)

  guids_of-append : (is js : List Instance) → guids_of (is ++ js) ≡ guids_of is ++ guids_of js
  guids_of-append [] js = refl
  guids_of-append (i ∷ is) js = ap (λ gs. i.guid ∷ gs) (guids_of-append is js)

  collected_apart :
      (guid : String) (guids : List String)
      → All (λ j. guid ≢ j) guids
      → All (λ j. guid ≢ j) (guids_of (collected guids))
  unfolding collect collected phase_of
  collected_apart guid [] h = tt
  collected_apart guid (j ∷ guids) h = rw (guids_of-append (phase_of j) (collected guids)) (
      All-append _ (guids_of (phase_of j)) (guids_of (collected guids)) (accepted_apart guid j h.0)
        (collected_apart guid guids h.1))

  pub collected-Distinct :
      (guids : List String) → Distinct guids → Distinct (guids_of (collected guids))
  unfolding collect collected phase_of
  collected-Distinct [] d = tt
  collected-Distinct (guid ∷ guids) d =
      elim (phase_accepted-cases s.process_canaries guid (info_of s.states guid)) [
        | inl e ↦ rw e (collected-Distinct guids d.1)
        | inr (running, e) ↦ rw e (collected_apart guid guids d.0, collected-Distinct guids d.1)
      ]

pub poll_running_tasks-keeps :
    {W : Type 0} (env : Env W) (r : Run W) (Allowed : OperationState → Type 0)
    (P : IteratorState → List InstanceFailure → Type 0)
    → IsPollKept Allowed P
    → Checks env Allowed
    → Distinct r.state.guids
    → P r.state r.failures
    → let r' = poll_running_tasks env r in P r'.state r'.failures
unfolding poll_running_tasks collected
poll_running_tasks-keeps env r Allowed P kept checks d p =
    poll_all-keeps env kept checks (in_progress_instances r.state) r
      (collected-Distinct r.state r.state.guids d) (collected-IsAccepted r.state r.state.guids) p
