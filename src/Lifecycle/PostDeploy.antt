-- ===== src/Lifecycle/PostDeploy.antt =====
-- On the errands after a deployment by broker/lifecycle_runner.go, poll after poll, with the director of
-- Lifecycle/Script.
use on_demand_service_broker.Prelude.{
  ℕ, zero, suc, ◌+◌, ◌-◌, ◌≡◌, refl, ap, ◌∙◌, sym, inl, inr, ltb, nat_eq, length, length-append,
  get_elem?, true, false, Bool-cases, ◌==◌, some, List, [], ◌∷◌, ◌++◌, String, arith,
}
use on_demand_service_broker.Config.{Errand}
use on_demand_service_broker.OperationData.{OperationData}
use on_demand_service_broker.Lifecycle.{
  valid_post_deploy_op_type, is_old_style_post_deploy, run_errand, after_post_deployment,
  process_post_deployment, get_task,
}
use on_demand_service_broker.Lifecycle.Script.{
  Command, errand_run, Director, director, done_task, done_tasks, polled_times, length-done_tasks,
  get_elem?-append,
}

-- An operation that deploys, under a context, in the present style of its data.
pub record IsDeployment (d : OperationData) : Type 0 where
  pub deploys : valid_post_deploy_op_type d.operation_type ≡ true
  pub in_context : d.bosh_context_id == "" ≡ false
  pub present_style : d.post_deploy_errand.name ≡ ""

-- The errands in order, on top of what was received before.
abbrev pub all_run : List Errand → List Command → List Command
all_run [] received = received
all_run (e ∷ es) received = all_run es (errand_run e.name e.instances ∷ received)

module _ (deployment : String) (d : OperationData) (deployed : IsDeployment d) where
  abbrev At : ℕ → List Command → Director
  At n received = record { tasks = done_tasks (suc n); commands = received }

  poll_lem :
      (n : ℕ) (received : List Command)
      → get_task director deployment d (At n received)
        ≡ after_post_deployment director deployment d done_task (done_tasks (suc n)) (At n received)
  unfolding get_task process_post_deployment
  poll_lem n received = rw (deployed.in_context, deployed.deploys) refl

  new_style : (n : ℕ) → is_old_style_post_deploy (done_tasks (suc n)) d ≡ false
  unfolding is_old_style_post_deploy
  new_style n = elim (Bool-cases (nat_eq (suc (length (done_tasks n))) 1)) [
    | inl e ↦ rw (e, deployed.present_style) refl
    | inr e ↦ rw e refl
  ]

  one_less : (n : ℕ) → suc (length (done_tasks n)) - 1 ≡ n
  one_less n = omega (arith, length-done_tasks n)

  poll_runs :
      (n : ℕ) (received : List Command) (e : Errand)
      → ltb n (length d.errands) ≡ true
      → get_elem? d.errands n ≡ some e
      → (get_task director deployment d (At n received)).1
        ≡ At (suc n) (errand_run e.name e.instances ∷ received)
  unfolding after_post_deployment run_errand
  poll_runs n received e h k =
      rw (poll_lem n received, after_post_deployment, new_style n, one_less n, h, k) refl

  poll_idles :
      (n : ℕ) (received : List Command)
      → ltb n (length d.errands) ≡ false
      → (get_task director deployment d (At n received)).1 ≡ At n received
  unfolding after_post_deployment
  poll_idles n received h =
      rw (poll_lem n received, after_post_deployment, new_style n, one_less n, h) refl

  idles :
      (extra n : ℕ) (received : List Command)
      → ltb n (length d.errands) ≡ false
      → polled_times extra deployment d (At n received) ≡ At n received
  idles zero n received h = refl
  idles (suc extra) n received h =
      ap (polled_times extra deployment d) (poll_idles n received h) ∙ idles extra n received h

  script_from :
      (done todo : List Errand) (received : List Command)
      → d.errands ≡ done ++ todo
      → (m : ℕ) × (ltb m (length d.errands) ≡ false)
        × (polled_times (length todo) deployment d (At (length done) received)
            ≡ At m (all_run todo received))
  script_from done [] received e = (length done, ground (arith, ended), refl)
    where
      ended : length d.errands ≡ length done + 0
      ended = rw e (length-append done [])
  script_from done (errand ∷ todo) received e =
      let (m, past, h) =
        script_from (done ++ errand ∷ []) todo (errand_run errand.name errand.instances ∷ received)
          (e ∙ regroup done) in
      (
        m,
        past,
        ap (polled_times (length todo) deployment d) (
              poll_runs (length done) received errand (ground (arith, sized)) at_turn
              ∙ ap (λ n. At n (errand_run errand.name errand.instances ∷ received)) next_size)
            ∙ h,
      )
    where
      regroup : (xs : List Errand) → xs ++ errand ∷ todo ≡ (xs ++ errand ∷ []) ++ todo
      regroup [] = refl
      regroup (x ∷ xs) = ap (λ ys. x ∷ ys) (regroup xs)

      sized : length d.errands ≡ length done + suc (length todo)
      sized = rw e (length-append done (errand ∷ todo))

      at_turn : get_elem? d.errands (length done) ≡ some errand
      at_turn = rw e (get_elem?-append done todo errand)

      next_size : suc (length done) ≡ length (done ++ errand ∷ [])
      next_size = sym (length-append done (errand ∷ []) ∙ omega arith)

  -- After a deployment, polled once for each of the errands, it runs these in order, each once.
  -- However often it is polled after that, it sends no command. Every task, the deployment's
  -- included, is done before the next poll.
  pub deployment_runs_script :
      (extra : ℕ)
      → (polled_times extra deployment d (
          polled_times
            (length d.errands)
            deployment
            d
            (record { tasks = done_task ∷ []; commands = [] }))).commands
        ≡ all_run d.errands []
  deployment_runs_script extra =
      let (m, past, h) = script_from [] d.errands [] refl in
      ap (λ w. (polled_times extra deployment d w).commands) h
      ∙ ap (λ w. w.commands) (idles extra m (all_run d.errands []) past)
