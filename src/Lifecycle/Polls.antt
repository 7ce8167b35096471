-- ===== src/Lifecycle/Polls.antt =====
-- On one poll of broker/lifecycle_runner.go, whatever the BOSH client answers.
use mathlib.Core.Logic.{◌≢◌}
use on_demand_service_broker.Prelude.{
  ℕ, zero, suc, ◌-◌, ◌<◌, ◌≡◌, refl, ltb, length, get_elem?, Bool, true, false, not, ◌==◌, some,
  List, [], ◌∷◌, String, Result, ok, err, panic, Io, next, ◌>>=◌, pure, or_panic, ltb→lt,
  if◌then◌else◌, arith,
}
use on_demand_service_broker.Config.{Errand}
use on_demand_service_broker.OperationData.{OperationData}
use on_demand_service_broker.Bosh.{BoshTask, state_type, is_complete, BoshClient}
use on_demand_service_broker.Lifecycle.{
  valid_post_deploy_op_type, valid_pre_delete_op_type, task_is_not_done, is_old_style_post_deploy,
  should_run_deprovision, has_run_all_errands, with_tasks, run_errand, deprovision_after_all_errand,
  after_post_deployment, after_pre_delete, process_post_deployment, process_pre_delete, get_task,
}

abbrev pub NeverPanics : {W A : Type 0} → Io W A → Type 0
NeverPanics {W} m = (w : W) → (m w).0 ≢ panic

-- No call of the client panics.
pub record IsSteady {W : Type 0} (bosh : BoshClient W) : Type 0 where
  pub task : (id : ℕ) → NeverPanics (bosh.get_task id)
  pub tasks :
      (deployment context_id : String)
      → NeverPanics (bosh.get_normalised_tasks_by_context deployment context_id)
  pub errand :
      (deployment name : String) (instances : List String) (context_id : String)
      → NeverPanics (bosh.run_errand deployment name instances context_id)
  pub deletion :
      (deployment context_id : String) (force : Bool)
      → NeverPanics (bosh.delete_deployment deployment context_id force)

module _ {W A B : Type 0} where
  next-steady :
      (f : A → Io W B) (x : Result A × W)
      → x.0 ≢ panic
      → ((a : A) → NeverPanics (f a))
      → (next f x).0 ≢ panic
  next-steady f (ok a, w) h k = k a w
  next-steady f (err e, w) h k = λ p. cc
  next-steady f (panic, w) h k = absurd (h refl)

  bind-steady :
      (m : Io W A) (f : A → Io W B)
      → NeverPanics m
      → ((a : A) → NeverPanics (f a))
      → NeverPanics (m >>= f)
  bind-steady m f h k w = next-steady f (m w) (h w) k

module _ {W A : Type 0} where
  either-steady :
      (b : Bool) (m n : Io W A)
      → (b ≡ true → NeverPanics m)
      → (b ≡ false → NeverPanics n)
      → NeverPanics (if b then m else n)
  either-steady true m n h k = h refl
  either-steady false m n h k = k refl

ok-steady : {W A : Type 0} (a : A) → NeverPanics {W = W} {A = A} (pure a)
ok-steady a w p = cc

pub get_elem?-some :
    {A : Type 0} (xs : List A) (i : ℕ) → i < length xs → (x : A) × (get_elem? xs i ≡ some x)
get_elem?-some [] i h = absurd (omega arith)
get_elem?-some (x ∷ xs) zero h = (x, refl)
get_elem?-some (x ∷ xs) (suc i) h = get_elem?-some xs i (omega arith)

module _ {W : Type 0} (bosh : BoshClient W) (steady : IsSteady bosh) (deployment : String) where
  run_errand-steady :
      (errand : Errand) (context_id : String)
      → NeverPanics (run_errand bosh deployment errand context_id)
  unfolding run_errand
  run_errand-steady errand context_id =
      bind-steady _ _ (steady.errand deployment errand.name errand.instances context_id) steady.task

  indexed-steady :
      (errands : List Errand) (i : ℕ) (context_id : String)
      → i < length errands
      → NeverPanics (
          or_panic (get_elem? errands i) >>= λ errand. run_errand bosh deployment errand context_id)
  indexed-steady errands i context_id h =
      let (errand, e) = get_elem?-some errands i h in rw e (run_errand-steady errand context_id)

  after_post_deployment-steady :
      (d : OperationData) (task : BoshTask) (tasks : List BoshTask)
      → NeverPanics (after_post_deployment bosh deployment d task tasks)
  unfolding after_post_deployment
  after_post_deployment-steady d task tasks =
      either-steady (not (is_complete (state_type task))) _ _ (λ _. ok-steady task)
        λ _.
          either-steady (is_old_style_post_deploy tasks d) _ _
            (λ _. run_errand-steady d.post_deploy_errand d.bosh_context_id)
            λ _.
              either-steady (ltb (length tasks - 1) (length d.errands)) _ _
                (λ h. indexed-steady d.errands (length tasks - 1) d.bosh_context_id (ltb→lt _ _ h))
                (λ _. ok-steady task)

  fewer :
      (tasks : List BoshTask) (d : OperationData)
      → should_run_deprovision tasks d ≡ false
      → has_run_all_errands tasks d ≡ false
      → length tasks < length d.errands
  unfolding should_run_deprovision has_run_all_errands
  fewer tasks d h k = ground arith

  after_pre_delete-steady :
      (d : OperationData) (task : BoshTask) (tasks : List BoshTask)
      → NeverPanics (after_pre_delete bosh deployment d task tasks)
  unfolding after_pre_delete deprovision_after_all_errand
  after_pre_delete-steady d task tasks =
      either-steady (task_is_not_done task d.operation_type) _ _ (λ _. ok-steady task)
        λ _.
          either-steady (should_run_deprovision tasks d) _ _
            (λ _. bind-steady _ _ (steady.deletion deployment d.bosh_context_id _) steady.task)
            λ h.
              either-steady (has_run_all_errands tasks d) _ _ (λ _. ok-steady task)
                (λ k. indexed-steady d.errands (length tasks) d.bosh_context_id (fewer tasks d h k))

  with_tasks-steady :
      (f : BoshTask → List BoshTask → Io W BoshTask)
      → ((task : BoshTask) (tasks : List BoshTask) → NeverPanics (f task tasks))
      → (tasks : List BoshTask) → NeverPanics (with_tasks bosh deployment f tasks)
  with_tasks-steady f h [] w p = cc
  with_tasks-steady f h (task ∷ tasks) w p = h task (task ∷ tasks) w p

  listed-steady :
      (f : BoshTask → List BoshTask → Io W BoshTask) (context_id : String)
      → ((task : BoshTask) (tasks : List BoshTask) → NeverPanics (f task tasks))
      → NeverPanics (
          bosh.get_normalised_tasks_by_context deployment context_id
          >>= with_tasks bosh deployment f)
  listed-steady f context_id h =
      bind-steady (bosh.get_normalised_tasks_by_context deployment context_id)
        (with_tasks bosh deployment f) (steady.tasks deployment context_id) (with_tasks-steady f h)

  -- A poll reads no list out of range: it panics for no operation data and no list of tasks, if no
  -- call of the client does.
  pub get_task_never_panics : (d : OperationData) (w : W) → (get_task bosh deployment d w).0 ≢ panic
  unfolding get_task process_post_deployment process_pre_delete
  get_task_never_panics d =
      either-steady (d.bosh_context_id == "") _ _ (λ _. steady.task d.bosh_task_id)
        λ _.
          either-steady (valid_post_deploy_op_type d.operation_type) _ _
            (λ _.
              listed-steady (after_post_deployment bosh deployment d) d.bosh_context_id
                (after_post_deployment-steady d))
            λ _.
              either-steady (valid_pre_delete_op_type d.operation_type) _ _
                (λ _.
                  listed-steady (after_pre_delete bosh deployment d) d.bosh_context_id
                    (after_pre_delete-steady d))
                (λ _. steady.task d.bosh_task_id)
