-- ===== src/Director/Tasks.antt =====
-- On the tasks that GetNormalisedTasksByContext of boshdirector/get_tasks.go gives.
use on_demand_service_broker.Prelude.{
  ℕ, ◌≡◌, ◌≢◌, ◌≤◌, refl, ◌⊎◌, ◌↔◌, inl, inr, nat_eq, length, true, Bool-cases, Option, List, [],
  ◌∷◌, String, ◌==◌, eq_iff, ok, All, arith, if◌then◌else◌,
}
use on_demand_service_broker.Bosh.{BoshTask, state_type}
use on_demand_service_broker.Director.{
  DirectorTask, Director, done_tasks, find_tasks_in_states, all_tasks_are_done, exit_code_of,
  get_task_output, fetch_task_state, normalise, get_normalised_tasks_by_context,
}

length-done_tasks_le : (ts : List BoshTask) → length (done_tasks ts) ≤ length ts
unfolding done_tasks find_tasks_in_states
length-done_tasks_le [] = omega arith
length-done_tasks_le (t ∷ ts) = ground (arith, length-done_tasks_le ts)

abbrev IsDone : BoshTask → Type 0
IsDone t = t.state ≡ "done"

all_tasks_are_done_iff : (ts : List BoshTask) → (all_tasks_are_done ts ≡ true) ↔ All IsDone ts
unfolding all_tasks_are_done done_tasks find_tasks_in_states state_type
all_tasks_are_done_iff [] = (λ e. tt, λ a. refl)
all_tasks_are_done_iff (t ∷ ts) =
    let (to, from) = all_tasks_are_done_iff ts in
    let le = length-done_tasks_le ts in
    (
      λ e. ground (arith, to, le, eq_iff t.state "done"),
      λ a. ground (arith, from, le, eq_iff t.state "done", a),
    )

module _ (outputs : ℕ → Option ℕ) where
  abbrev pub Succeeded : BoshTask → Type 0
  Succeeded t = (t.state ≡ "done") × (exit_code_of (outputs t.id) ≡ 0)

  abbrev pub normal_state : BoshTask → String
  normal_state t =
      if t.state == "done"
      then (if nat_eq (exit_code_of (outputs t.id)) 0 then t.state else "error")
      else t.state

  abbrev pub normalised : String → List DirectorTask → List BoshTask
  normalised deployment [] = []
  normalised deployment (t ∷ ts) =
      let more = normalised deployment ts in
      if t.deployment == deployment
      then record t.task { state = normal_state t.task } ∷ more
      else more

  normal_state-done_iff : (t : BoshTask) → (normal_state t ≡ "done") ↔ Succeeded t
  normal_state-done_iff t = elim (Bool-cases (t.state == "done")) [
    | inl e ↦ elim (Bool-cases (nat_eq (exit_code_of (outputs t.id)) 0)) [
      | inl z ↦ (λ h. ((eq_iff t.state "done").0 e, ground arith), λ h. rw (e, z) h.0)
      | inr z ↦ (λ h. absurd (error_apart (rw (e, z) at h)), λ h. ground (arith, h.1))
    ]
    | inr e ↦ (
      λ h. ground (arith, eq_iff t.state "done"),
      λ h. ground (arith, eq_iff t.state "done", h.0),
    )
  ]
    where
      error_apart : ◌≡◌ {A = String} "error" "done" → ⊥
      error_apart h = cc

  abbrev pub ElsewhereOrSucceeded : String → DirectorTask → Type 0
  ElsewhereOrSucceeded deployment t = (t.deployment ≢ deployment) ⊎ Succeeded t.task

  normalised-All_iff :
      (deployment : String) (ts : List DirectorTask)
      → All IsDone (normalised deployment ts) ↔ All (ElsewhereOrSucceeded deployment) ts
  normalised-All_iff deployment [] = (λ a. a, λ a. a)
  normalised-All_iff deployment (t ∷ ts) =
      let (to, from) = normalised-All_iff deployment ts in
      elim (Bool-cases (t.deployment == deployment)) [
        | inl e ↦ rw e (
          λ a. (inr ((normal_state-done_iff t.task).0 a.0), to a.1),
          λ a. (
            elim a.0 [
              | inl elsewhere ↦ absurd (elsewhere ((eq_iff t.deployment deployment).0 e))
              | inr done ↦ (normal_state-done_iff t.task).1 done
            ],
            from a.1,
          ),
        )
        | inr e ↦
            rw e (
              λ a. (inl (λ h. ground (arith, eq_iff t.deployment deployment)), to a),
              λ a. from a.1,
            )
      ]

module _ {W : Type 0} (d : Director W) (outputs : ℕ → Option ℕ) (w : W) where
  -- The director answers every question without change, and the exit codes in the outputs of the tasks
  -- are those of `outputs`.
  pub record AnswersSteadily : Type 0 where
    pub builds : d.build w ≡ (ok tt, w)
    pub finds : (id : ℕ) → (t : DirectorTask) × (d.find_task id w ≡ (ok t, w)) × (t.task.id ≡ id)
    pub gives_output : (id : ℕ) → d.result_output id w ≡ (ok (outputs id), w)

  module _ (steady : AnswersSteadily) where
    get_task_output_lem : (id : ℕ) → get_task_output d id w ≡ (ok (exit_code_of (outputs id)), w)
    unfolding get_task_output
    get_task_output_lem id =
        let (t, found, same) = steady.finds id in
        rw (steady.builds, found, same, steady.gives_output id) refl

    fetch_task_state_lem :
        (t : BoshTask) → fetch_task_state d t w ≡ (ok (normal_state outputs t), w)
    unfolding fetch_task_state
    fetch_task_state_lem t = elim (Bool-cases (t.state == "done")) [
      | inr e ↦ rw e refl
      | inl e ↦ elim (Bool-cases (nat_eq (exit_code_of (outputs t.id)) 0)) [
        | inl z ↦ rw (e, get_task_output_lem t.id, z) refl
        | inr z ↦ rw (e, get_task_output_lem t.id, z) refl
      ]
    ]

    pub normalise_lem :
        (deployment : String) (ts : List DirectorTask)
        → normalise d deployment ts w ≡ (ok (normalised outputs deployment ts), w)
    unfolding normalise
    normalise_lem deployment [] = refl
    normalise_lem deployment (t ∷ ts) = elim (Bool-cases (t.deployment == deployment)) [
      | inl e ↦ rw (e, fetch_task_state_lem t.task, normalise_lem deployment ts) refl
      | inr e ↦ rw (e, normalise_lem deployment ts) refl
    ]

  -- The tasks that GetNormalisedTasksByContext gives are all done exactly when every task of the
  -- context that belongs to the deployment is done with the exit code 0; output that cannot be
  -- decoded counts as the exit code 0. This holds where the director answers every question
  -- without change.
  pub all_tasks_are_done-get_normalised_tasks_iff :
      (deployment context_id : String) (tasks : List DirectorTask)
      → AnswersSteadily
      → d.find_tasks_by_context_id context_id w ≡ (ok tasks, w)
      → (ts : List BoshTask) × (get_normalised_tasks_by_context d deployment context_id w
          ≡ (ok ts, w))
        × ((all_tasks_are_done ts ≡ true) ↔ All (ElsewhereOrSucceeded outputs deployment) tasks)
  unfolding get_normalised_tasks_by_context
  all_tasks_are_done-get_normalised_tasks_iff deployment context_id tasks steady found =
      let ts = normalised outputs deployment tasks in
      let done = all_tasks_are_done_iff ts in
      let each = normalised-All_iff outputs deployment tasks in
      (
        ts,
        rw (steady.builds, found, normalise_lem steady deployment tasks) refl,
        (λ e. each.0 (done.0 e), λ a. done.1 (each.1 a)),
      )
