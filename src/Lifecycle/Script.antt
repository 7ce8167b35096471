-- ===== src/Lifecycle/Script.antt =====
-- On a whole deletion by broker/lifecycle_runner.go, poll after poll, with a director on which every
-- task is done before the next poll.
use on_demand_service_broker.Prelude.{
  ℕ, zero, suc, ◌+◌, ◌<◌, ◌≡◌, refl, ap, ◌∙◌, inl, inr, nat_eq, length, length-append, get_elem?,
  Bool, true, false, Bool-cases, ◌==◌, some, List, [], ◌∷◌, ◌++◌, String, Result, ok, arith,
}
use on_demand_service_broker.Config.{Errand}
use on_demand_service_broker.OperationData.{OperationType, OperationData, delete, force_delete}
use on_demand_service_broker.Bosh.{BoshTask, BoshClient}
use on_demand_service_broker.Lifecycle.{
  valid_post_deploy_op_type, valid_pre_delete_op_type, should_force_delete, is_old_style_pre_delete,
  should_run_deprovision, has_run_all_errands, run_errand, deprovision_after_all_errand,
  after_pre_delete, process_pre_delete, get_task,
}

pub data Command : Type 0 where
  errand_run : (name : String) (instances : List String) → Command
  deployment_deleted : (force : Bool) → Command

-- The tasks of one operation, the newest first, and the commands received, the newest first.
pub record Director : Type 0 where
  pub tasks : List BoshTask
  pub commands : List Command

abbrev pub done_task : BoshTask
done_task = record { id = 1; state = "done"; description = ""; result = ""; context_id = "" }

abbrev pub receive : Command → Director → Result ℕ × Director
receive c w = (ok 1, record { tasks = done_task ∷ w.tasks; commands = c ∷ w.commands })

abbrev pub director : BoshClient Director
director = record {
  get_task = λ _ w. (ok done_task, w);
  get_normalised_tasks_by_context = λ _ _ w. (ok w.tasks, w);
  run_errand = λ _ name instances _ w. receive (errand_run name instances) w;
  delete_deployment = λ _ _ force w. receive (deployment_deleted force) w;
}

-- The director after so many polls.
abbrev pub polled_times : ℕ → String → OperationData → Director → Director
polled_times zero deployment d w = w
polled_times (suc n) deployment d w =
    polled_times n deployment d (get_task director deployment d w).1

-- `n` tasks that are done.
abbrev pub done_tasks : ℕ → List BoshTask
done_tasks zero = []
done_tasks (suc n) = done_task ∷ done_tasks n

-- The errands in order, and then the deletion, on top of what was received before.
abbrev pub scripted : List Errand → Bool → List Command → List Command
scripted [] force received = deployment_deleted force ∷ received
scripted (e ∷ es) force received = scripted es force (errand_run e.name e.instances ∷ received)

-- A deletion with errands under a context, in the present style of its data.
pub record IsDeletion (d : OperationData) : Type 0 where
  pub deletes : valid_pre_delete_op_type d.operation_type ≡ true
  pub in_context : d.bosh_context_id == "" ≡ false
  pub present_style : d.pre_delete_errand.name ≡ ""

pub length-done_tasks : (n : ℕ) → length (done_tasks n) ≡ n
length-done_tasks zero = refl
length-done_tasks (suc n) = ap suc (length-done_tasks n)

pub get_elem?-append :
    {A : Type 0} (xs ys : List A) (y : A) → get_elem? (xs ++ y ∷ ys) (length xs) ≡ some y
get_elem?-append [] ys y = refl
get_elem?-append (x ∷ xs) ys y = get_elem?-append xs ys y

pub not_post_deploy :
    (op : OperationType) → valid_pre_delete_op_type op ≡ true → valid_post_deploy_op_type op ≡ false
unfolding valid_pre_delete_op_type valid_post_deploy_op_type
not_post_deploy delete h = refl
not_post_deploy force_delete h = refl
not_post_deploy _ h = ground arith

module _ (deployment : String) (d : OperationData) (deletion : IsDeletion d) where
  -- A poll is what follows the newest of the tasks.
  poll_lem :
      (n : ℕ) (received : List Command)
      → let w : Director = record { tasks = done_tasks (suc n); commands = received } in
        get_task director deployment d w
        ≡ after_pre_delete director deployment d done_task (done_tasks (suc n)) w
  unfolding get_task process_pre_delete
  poll_lem n received =
      rw (deletion.in_context, not_post_deploy d.operation_type deletion.deletes, deletion.deletes)
        refl

  open_style : (n : ℕ) → is_old_style_pre_delete (done_tasks (suc n)) d ≡ false
  unfolding is_old_style_pre_delete
  open_style n = elim (Bool-cases (nat_eq (suc (length (done_tasks n))) 1)) [
    | inl e ↦ rw (e, deletion.present_style) refl
    | inr e ↦ rw e refl
  ]

  not_yet :
      (n : ℕ) → suc n < length d.errands → should_run_deprovision (done_tasks (suc n)) d ≡ false
  unfolding should_run_deprovision
  not_yet n h = ground (arith, open_style n, length-done_tasks n)

  now : (n : ℕ) → length d.errands ≡ suc n → should_run_deprovision (done_tasks (suc n)) d ≡ true
  unfolding should_run_deprovision
  now n h = ground (arith, open_style n, length-done_tasks n)

  over :
      (n : ℕ)
      → length d.errands < suc n
      → (should_run_deprovision (done_tasks (suc n)) d ≡ false)
        × (has_run_all_errands (done_tasks (suc n)) d ≡ true)
  unfolding should_run_deprovision has_run_all_errands
  over n h =
      (ground (arith, open_style n, length-done_tasks n), ground (arith, length-done_tasks n))

  more_left :
      (n : ℕ) → suc n < length d.errands → has_run_all_errands (done_tasks (suc n)) d ≡ false
  unfolding has_run_all_errands
  more_left n h = ground (arith, length-done_tasks n)

  poll_deletes :
      (n : ℕ) (received : List Command)
      → length d.errands ≡ suc n
      → (get_task director deployment d
          (record { tasks = done_tasks (suc n); commands = received })).1
        ≡ record {
          tasks = done_tasks (suc (suc n));
          commands = deployment_deleted (should_force_delete d.operation_type) ∷ received;
        }
  unfolding after_pre_delete deprovision_after_all_errand
  poll_deletes n received h = rw (poll_lem n received, after_pre_delete, now n h) refl

  poll_idles :
      (n : ℕ) (received : List Command)
      → length d.errands < suc n
      → (get_task director deployment d
          (record { tasks = done_tasks (suc n); commands = received })).1
        ≡ record { tasks = done_tasks (suc n); commands = received }
  unfolding after_pre_delete
  poll_idles n received h =
      let o = over n h in rw (poll_lem n received, after_pre_delete, o.0, o.1) refl

  poll_runs :
      (n : ℕ) (received : List Command) (e : Errand)
      → suc n < length d.errands
      → get_elem? d.errands (suc n) ≡ some e
      → (get_task director deployment d
          (record { tasks = done_tasks (suc n); commands = received })).1
        ≡ record {
          tasks = done_tasks (suc (suc n));
          commands = errand_run e.name e.instances ∷ received;
        }
  unfolding after_pre_delete run_errand
  poll_runs n received e h k =
      rw (poll_lem n received, after_pre_delete, not_yet n h, more_left n h, length-done_tasks n, k)
        refl

  abbrev Reaches : ℕ → Director → List Command → Type 0
  Reaches polls w received =
      (m : ℕ) × (length d.errands < suc m)
      × (polled_times polls deployment d w
          ≡ record { tasks = done_tasks (suc m); commands = received })

  script_from :
      (n : ℕ) (done todo : List Errand) (received : List Command)
      → d.errands ≡ done ++ todo
      → length done ≡ suc n
      → Reaches
          (suc (length todo))
          (record { tasks = done_tasks (suc n); commands = received })
          (scripted todo (should_force_delete d.operation_type) received)
  script_from n done [] received e l =
      (suc n, ground (arith, size), poll_deletes n received (size ∙ omega arith))
    where
      size : length d.errands ≡ suc n + 0
      size = rw e (length-append done [] ∙ omega arith)
  script_from n done (errand ∷ todo) received e l =
      let (m, past, h) =
        script_from (suc n) (done ++ errand ∷ []) todo
          (errand_run errand.name errand.instances ∷ received) (e ∙ regroup done)
          (length-append done (errand ∷ []) ∙ omega arith) in
      (
        m,
        past,
        ap (polled_times (suc (length todo)) deployment d) (
              poll_runs n received errand (rw e (omega (arith, length-append done (errand ∷ todo))))
                at_turn)
            ∙ h,
      )
    where
      regroup : (xs : List Errand) → xs ++ errand ∷ todo ≡ (xs ++ errand ∷ []) ++ todo
      regroup [] = refl
      regroup (x ∷ xs) = ap (λ ys. x ∷ ys) (regroup xs)

      at_turn : get_elem? d.errands (suc n) ≡ some errand
      at_turn = rw (e, ← l) (get_elem?-append done todo errand)

  idles :
      (extra m : ℕ) (received : List Command)
      → length d.errands < suc m
      → polled_times extra deployment d (record { tasks = done_tasks (suc m); commands = received })
        ≡ record { tasks = done_tasks (suc m); commands = received }
  idles zero m received h = refl
  idles (suc extra) m received h =
      ap (polled_times extra deployment d) (poll_idles m received h) ∙ idles extra m received h

  -- A deletion with errands, of which the first is started, polled once for each of the others and
  -- once more: it runs these in order, each once, and then deletes the deployment, once. However
  -- often it is polled after that, it sends no command. Every task is done before the next poll.
  pub deletion_runs_script :
      (first : Errand) (rest : List Errand) (extra : ℕ)
      → d.errands ≡ first ∷ rest
      → (polled_times extra deployment d (
          polled_times
            (suc (length rest))
            deployment
            d
            (record { tasks = done_task ∷ []; commands = [] }))).commands
        ≡ scripted rest (should_force_delete d.operation_type) []
  deletion_runs_script first rest extra e =
      let (m, past, h) = script_from 0 (first ∷ []) rest [] e refl in
      ap (λ w. (polled_times extra deployment d w).commands) h
      ∙ ap (λ w. w.commands)
          (idles extra m (scripted rest (should_force_delete d.operation_type) []) past)
