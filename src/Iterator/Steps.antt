-- ===== src/Iterator/Steps.antt =====
-- instanceiterator/iterator.go: triggerOperation and pollRunningTasks.
use on_demand_service_broker.Prelude.{
  ℕ, ◌+◌, drop, Bool, true, false, List, [], ◌∷◌, ◌++◌, String, if◌then◌else◌,
}
use on_demand_service_broker.Prelude.Int.{ℤ, pos, sub_ℕ, less, is_zero, at_most}
use on_demand_service_broker.IteratorState.Data.{
  OperationState, accepted, succeeded, failed, instance_not_found, state_eq, Instance,
  TriggeredOperation, IteratorState, no_operation,
}
use on_demand_service_broker.IteratorState.Queries.{
  count_in_progress_instances, outstanding_canary_count, count_instances_in_current_phase,
  processable, pending_instance, get_iterator_index, in_progress_instances,
}
use on_demand_service_broker.IteratorState.Updates.{set_state, set_operation, get_operation}
use on_demand_service_broker.Iterator.Data.{
  Reply, replied, refused, Env, Settings, call_failed, operation_failed, Failure, Run, emit,
  with_state, instance_operation_starting, instance_operation_start_result,
  instance_operation_finished, waiting_for, failed_to_refresh_instance_info, LatestInfo, refreshed,
  not_found, refresh_failed, latest_instance_info,
}

unfoldable pub operations_to_trigger_count : ℕ → IteratorState → ℤ
unfolding count_in_progress_instances outstanding_canary_count
operations_to_trigger_count max_in_flight s =
    let needed = sub_ℕ max_in_flight (count_in_progress_instances s) in
    if s.process_canaries then at_most needed (outstanding_canary_count s) else needed

-- How a round of the loop of triggerOperation ends: it returns, or goes on with or without an
-- operation accepted.
pub data Round (W : Type 0) : Type 0 where
  stop : Run W → Round W
  go_on : Bool → Run W → Round W

module _ {W : Type 0} where
  unfoldable pub add_failure : String → Failure → Run W → Run W
  add_failure guid f r = record r {
    failures = r.failures ++ record { guid = guid; failure = f } ∷ [];
  }

  abbrev pub ask_trigger : Env W → Instance → Run W → Reply TriggeredOperation × Run W
  ask_trigger env i r = let (reply, w) = env.trigger i r.world in (reply, record r { world = w })

  -- The operation, from the outcome of LatestInstanceInfo.
  abbrev pub operation_on :
      Env W → Instance → LatestInfo × W → Run W → Reply TriggeredOperation × Run W
  operation_on env i (not_found, w) r =
      (replied (record no_operation { state = instance_not_found }), record r { world = w })
  operation_on env i (refresh_failed e, w) r =
      ask_trigger env i
        (record r { world = w; events = failed_to_refresh_instance_info i.guid ∷ r.events })
  operation_on env i (refreshed latest, w) r = ask_trigger env latest (record r { world = w })

  abbrev pub waiting : String → TriggeredOperation → Run W → Run W
  waiting guid op r =
      if state_eq op.state accepted
      then emit (waiting_for guid op.operation_data.bosh_task_id) r
      else r

  abbrev pub round_end : String → Reply TriggeredOperation × Run W → Round W
  unfolding set_state set_operation add_failure
  round_end guid (refused e, r) =
      stop (add_failure guid (call_failed e) (with_state (set_state guid failed r.state) r))
  round_end guid (replied op, r) =
      let r' = with_state (set_state guid op.state (set_operation guid op r.state)) r in
      go_on (state_eq op.state accepted)
        (waiting guid op (emit (instance_operation_start_result guid op.state) r'))

  -- The body of the loop of triggerOperation after NextPending.
  unfoldable pub trigger_round : Env W → ℕ → Instance → Run W → Round W
  unfolding latest_instance_info get_iterator_index set_state set_operation add_failure
  trigger_round env total i r =
      let r' =
        emit
          (instance_operation_starting i.guid (get_iterator_index r.state) total
            r.state.process_canaries)
          r in
      round_end i.guid (operation_on env i (latest_instance_info env i r'.world) r')

  abbrev pub step_over : Run W → Run W
  step_over r = with_state (record r.state { position = r.state.position + 1 }) r

  -- The loop of triggerOperation with that of NextPending, over the guids from the position on.
  unfoldable pub trigger_from : Env W → ℕ → ℤ → ℕ → List String → Run W → Run W
  unfolding processable trigger_round
  trigger_from env total needed accepted_count [] r = r
  trigger_from env total needed accepted_count (guid ∷ guids) r =
      elim (less (pos accepted_count) needed) [
        | false ↦ r
        | true ↦ elim (processable r.state guid) [
          | false ↦ trigger_from env total needed accepted_count guids (step_over r)
          | true ↦ elim (trigger_round env total (pending_instance r.state guid) (step_over r)) [
            | stop r' ↦ r'
            | go_on true r' ↦ trigger_from env total needed (accepted_count + 1) guids r'
            | go_on false r' ↦ trigger_from env total needed accepted_count guids r'
          ]
        ]
      ]

  unfoldable pub trigger_operation : Env W → Settings → Run W → Run W
  unfolding operations_to_trigger_count count_instances_in_current_phase trigger_from
  trigger_operation env settings r =
      let needed = operations_to_trigger_count settings.max_in_flight r.state in
      if is_zero needed
      then r
      else trigger_from env (count_instances_in_current_phase r.state) needed 0
          (drop r.state.position r.state.guids) r

  abbrev pub finish_poll : String → TriggeredOperation → OperationState → Run W → Run W
  unfolding add_failure
  finish_poll guid op succeeded r = emit (instance_operation_finished guid true) r
  finish_poll guid op failed r =
      add_failure guid (operation_failed guid op.operation_data.bosh_task_id op.description)
        (emit (instance_operation_finished guid false) r)
  finish_poll guid op _ r = r

  abbrev pub polled : String → Reply TriggeredOperation × W → Run W → Run W
  unfolding set_state add_failure
  polled guid (refused e, w) r =
      add_failure guid (call_failed e)
        (record r { world = w; state = set_state guid failed r.state })
  polled guid (replied op, w) r =
      finish_poll guid op op.state (record r { world = w; state = set_state guid op.state r.state })

  -- One round of the loop of pollRunningTasks.
  unfoldable pub poll_one : Env W → Instance → Run W → Run W
  unfolding get_operation set_state add_failure
  poll_one env i r =
      polled i.guid (env.check i.guid (get_operation r.state i.guid).operation_data r.world) r

  unfoldable pub poll_all : Env W → List Instance → Run W → Run W
  unfolding poll_one
  poll_all env [] r = r
  poll_all env (i ∷ is) r = poll_all env is (poll_one env i r)

  unfoldable pub poll_running_tasks : Env W → Run W → Run W
  unfolding in_progress_instances poll_all
  poll_running_tasks env r = poll_all env (in_progress_instances r.state) r
