-- ===== src/Iterator/Polling.antt =====
-- On pollRunningTasks of instanceiterator/iterator.go, and what is left to do after it.
use on_demand_service_broker.Prelude.{
  ℕ, suc, ◌+◌, ◌≡◌, refl, ap, sym, subst, List, [], ◌∷◌, length, String, All, arith,
}
use on_demand_service_broker.Prelude.Dict.{Distinct}
use on_demand_service_broker.OperationData.{OperationData}
use on_demand_service_broker.IteratorState.Data.{
  OperationState, failed, succeeded, Instance, TriggeredOperation,
}
use on_demand_service_broker.IteratorState.Queries.{
  in_progress_instances, guids_of, count_in_progress_instances,
}
use on_demand_service_broker.IteratorState.Updates.{set_state, get_operation}
use on_demand_service_broker.Iterator.Data.{Reply, replied, refused, Env, Run}
use on_demand_service_broker.Iterator.Steps.{
  polled, finish_poll, poll_one, poll_all, poll_running_tasks, add_failure,
}
use on_demand_service_broker.Iterator.PollRule.{
  IsAccepted, finish_poll-state, others-IsAccepted, collected, collected-IsAccepted,
  collected-Distinct,
}
use on_demand_service_broker.Iterator.Measure.{Settles, reply_load}
use on_demand_service_broker.Iterator.Closing.{Closes, refl-Closes, trans-Closes, set_state-Closes}

one_more : (n : ℕ) → 1 + n ≡ suc n
one_more n = omega arith

finish_poll-world :
    {W : Type 0} (guid : String) (op : TriggeredOperation) (state : OperationState) (r : Run W)
    → (finish_poll guid op state r).world ≡ r.world
unfolding add_failure
finish_poll-world guid op failed r = refl
finish_poll-world guid op succeeded r = refl
finish_poll-world guid op _ r = refl

module _ {W : Type 0} (rest : W → ℕ) (env : Env W) (settles : Settles env rest) where
  polled-Closes :
      (guid : String) (d : OperationData) (r : Run W) (reply : Reply TriggeredOperation × W)
      → env.check guid d r.world ≡ reply
      → IsAccepted r.state guid
      → let r' = polled guid reply r in Closes rest 1 r.state r'.state r.world r'.world
  unfolding set_state add_failure
  polled-Closes guid d r (refused e, w) h a =
      set_state-Closes rest guid a.info failed 1 r.state r.world w a.there (λ e. cc)
        (rw a.running
          (omega (arith, settles.checks guid d r.world, ap (λ x. rest x.1 + reply_load x.0) h)))
  polled-Closes guid d r (replied op, w) h a =
      subst
        (λ x.
          Closes rest 1 r.state
            (finish_poll guid op op.state
              (record r { world = w; state = set_state guid op.state r.state })).state
            r.world x)
        (sym (
          finish_poll-world guid op op.state
            (record r { world = w; state = set_state guid op.state r.state })))
        (subst (λ x. Closes rest 1 r.state x r.world w)
          (sym (
            finish_poll-state guid op op.state
              (record r { world = w; state = set_state guid op.state r.state })))
          (set_state-Closes rest guid a.info op.state 1 r.state r.world w a.there
            (settles.check_settles guid d r.world w op h)
            (rw a.running (
              omega
                (arith, settles.checks guid d r.world, ap (λ x. rest x.1 + reply_load x.0) h)))))

  poll_all-Closes :
      (is : List Instance) (r : Run W)
      → Distinct (guids_of is)
      → All (λ i. IsAccepted r.state i.guid) is
      → let r' = poll_all env is r in Closes rest (length is) r.state r'.state r.world r'.world
  unfolding poll_all poll_one
  poll_all-Closes [] r d a = refl-Closes rest r.state r.world
  poll_all-Closes (i ∷ is) r d a =
      let data_of = (get_operation r.state i.guid).operation_data in
      let reply = env.check i.guid data_of r.world in
      let r' = polled i.guid reply r in
      subst
        (λ n. Closes rest n r.state (poll_all env is r').state r.world (poll_all env is r').world)
        (one_more (length is))
        (trans-Closes rest 1 (length is) r.state r'.state (poll_all env is r').state r.world
          r'.world (poll_all env is r').world (polled-Closes i.guid data_of r reply refl a.0)
          (poll_all-Closes is r' d.1 (others-IsAccepted i.guid is r reply d.0 a.1)))

  pub poll_running_tasks-Closes :
      (r : Run W)
      → Distinct r.state.guids
      → let r' = poll_running_tasks env r in
        Closes rest (count_in_progress_instances r.state) r.state r'.state r.world r'.world
  unfolding poll_running_tasks count_in_progress_instances in_progress_instances collected
  poll_running_tasks-Closes r d =
      poll_all-Closes (in_progress_instances r.state) r (collected-Distinct r.state r.state.guids d)
        (collected-IsAccepted r.state r.state.guids)
