-- ===== src/Deleter/Waiting.antt =====
-- On the answers for which pollInstanceDeleteStatus of deleter/deleter.go waits.
use on_demand_service_broker.Prelude.{
  ℕ, zero, suc, ◌<◌, ◌≡◌, ◌≢◌, refl, sym, ap, subst, ◌∙◌, ◌↔◌, ◌⊎◌, inl, inr, true, false,
  Bool-cases, Option, some, List, [], ◌∷◌, ◌++◌, String, other, has_type, Result, ok, err, panic,
  All, length, arith, pure,
}
use mathlib.Core.List.{head-eq_of_cons-eq, tail-eq_of_cons-eq}
use on_demand_service_broker.Deleter.{
  LastOperation, is_delete, operation_failed, is_fatal, CfClient, read_deletion, poll_loop,
}

-- The platform's answers to come. Where none is left, it answers with an error.
abbrev pub Script : Type 0
Script = List (Result LastOperation)

abbrev answer_next : Script → Result LastOperation × Script
answer_next [] = (err (other "no answer"), [])
answer_next (a ∷ more) = (a, more)

-- A platform that answers the questions for the last operation by the script.
abbrev pub scripted : CfClient Script
scripted = record {
  get_service_instances = λ _. pure [];
  get_last_operation_for_instance = λ _. answer_next;
  get_bindings_for_instance = λ _. pure [];
  delete_binding = λ _. pure tt;
  get_service_keys_for_instance = λ _. pure [];
  delete_service_key = λ _. pure tt;
  delete_service_instance = λ _. pure tt;
  disable_service_access_for_all_plans = λ _. pure tt;
  get_service_offering_guid = λ _. pure "";
  deregister_broker = λ _. pure tt;
  sleep_offset = λ w. w;
  sleep_interval = λ w. w;
}

-- The deletion is still going on, or the platform could not say.
abbrev pub Undecided : Result LastOperation → Type 0
Undecided (ok last) = (is_delete last ≡ true) × (operation_failed last ≡ false)
Undecided (err e) = (has_type "ResourceNotFoundError" e ≡ false) × (is_fatal e ≡ false)
Undecided panic = ⊥

abbrev pub NotFound : Result LastOperation → Type 0
NotFound (ok last) = ⊥
NotFound (err e) = has_type "ResourceNotFoundError" e ≡ true
NotFound panic = ⊥

-- After answers that decide nothing, within the fuel, the platform answers that the instance is not found.
pub record TurnsOut (fuel : ℕ) (answers left : Script) : Type 0 where
  pub before : Script
  pub gone : Result LastOperation
  pub in_order : answers ≡ before ++ gone ∷ left
  pub undecided : All Undecided before
  pub not_found : NotFound gone
  pub in_time : length before < fuel

abbrev Round : Type 0
Round = Option (Result (Unit {0}) × Script)

abbrev Stops : Result LastOperation → Type 0
Stops a =
    (rest : Script → Round) (more left : Script)
    → read_deletion scripted rest (a, more) ≢ some (ok tt, left)

kinds : (a : Result LastOperation) → NotFound a ⊎ (Undecided a ⊎ Stops a)
kinds (ok last) = elim (Bool-cases (is_delete last)) [
  | inr d ↦ inr (inr (λ rest more left. rw d (λ e. cc)))
  | inl d ↦ elim (Bool-cases (operation_failed last)) [
    | inl f ↦ inr (inr (λ rest more left. rw (d, f) (λ e. cc)))
    | inr f ↦ inr (inl (d, f))
  ]
]
kinds (err e) = elim (Bool-cases (has_type "ResourceNotFoundError" e)) [
  | inl n ↦ inl n
  | inr n ↦ elim (Bool-cases (is_fatal e)) [
    | inl f ↦ inr (inr (λ rest more left. rw (n, f) (λ h. cc)))
    | inr f ↦ inr (inl (n, f))
  ]
]
kinds panic = inr (inr (λ rest more left e. cc))

waits :
    (a : Result LastOperation) (rest : Script → Round) (more : Script)
    → Undecided a
    → read_deletion scripted rest (a, more) ≡ rest more
waits (ok last) rest more u = rw (u.0, u.1) refl
waits (err e) rest more u = rw (u.0, u.1) refl
waits panic rest more u = absurd u

returns :
    (a : Result LastOperation) (rest : Script → Round) (more : Script)
    → NotFound a
    → read_deletion scripted rest (a, more) ≡ some (ok tt, more)
returns (ok last) rest more n = absurd n
returns (err e) rest more n = rw n refl
returns panic rest more n = absurd n

apart : (a : Result LastOperation) → NotFound a → Undecided a → ⊥
apart (ok last) n u = n
apart (err e) n u = cc
apart panic n u = n

module _ (fuel : ℕ) (a : Result LastOperation) (more left : Script) where
  at_once : NotFound a → more ≡ left → TurnsOut (suc fuel) (a ∷ more) left
  at_once n e = record {
    before = [];
    gone = a;
    in_order = ap (λ t. a ∷ t) e;
    undecided = tt;
    not_found = n;
    in_time = omega arith;
  }

  later : Undecided a → TurnsOut fuel more left → TurnsOut (suc fuel) (a ∷ more) left
  later u t = record {
    before = a ∷ t.before;
    gone = t.gone;
    in_order = ap (λ s. a ∷ s) t.in_order;
    undecided = (u, t.undecided);
    not_found = t.not_found;
    in_time = omega (arith, t.in_time);
  }

  taken :
      TurnsOut (suc fuel) (a ∷ more) left
      → (NotFound a × (more ≡ left)) ⊎ (Undecided a × TurnsOut fuel more left)
  taken t = by_before t.before t.in_order t.undecided t.in_time
    where
      by_before :
          (before : Script)
          → a ∷ more ≡ before ++ t.gone ∷ left
          → All Undecided before
          → length before < suc fuel
          → (NotFound a × (more ≡ left)) ⊎ (Undecided a × TurnsOut fuel more left)
      by_before [] e u l =
          inl (subst NotFound (sym (head-eq_of_cons-eq e)) t.not_found, tail-eq_of_cons-eq e)
      by_before (x ∷ xs) e u l = inr (
        subst Undecided (sym (head-eq_of_cons-eq e)) u.0,
        record {
          before = xs;
          gone = t.gone;
          in_order = tail-eq_of_cons-eq e;
          undecided = u.1;
          not_found = t.not_found;
          in_time = omega (arith, l);
        },
      )

-- The wait for the deletion of an instance succeeds exactly when, after answers that leave it
-- undecided, the platform answers within the fuel that the instance is not found; the answers after
-- that are left unread.
pub poll_loop-ok_iff :
    (fuel : ℕ) (guid : String) (answers left : Script)
    → (poll_loop scripted fuel guid answers ≡ some (ok tt, left)) ↔ TurnsOut fuel answers left
unfolding poll_loop
poll_loop-ok_iff zero guid answers left = (λ e. cc, λ t. absurd (omega (arith, t.in_time)))
poll_loop-ok_iff (suc fuel) guid [] left =
    let ih = poll_loop-ok_iff fuel guid [] left in
    (λ e. absurd (no_shape (ih.0 e)), λ t. absurd (no_shape t))
  where
    no_shape : {n : ℕ} → TurnsOut n [] left → ⊥
    no_shape t = by_before t.before t.in_order
      where
        by_before : (before : Script) → [] ≡ before ++ t.gone ∷ left → ⊥
        by_before [] e = cc
        by_before (x ∷ xs) e = cc
poll_loop-ok_iff (suc fuel) guid (a ∷ more) left =
    let ih = poll_loop-ok_iff fuel guid more left in
    let known : (NotFound a × (more ≡ left)) ⊎ (Undecided a × TurnsOut fuel more left)
        → (NotFound a × (more ≡ left))
          ⊎ (Undecided a × (poll_loop scripted fuel guid more ≡ some (ok tt, left))) =
      λ t. elim t [ inl n ↦ inl n | inr m ↦ inr (m.0, ih.1 m.1) ] in
    elim (kinds a) [
      | inl n ↦ (
        λ e.
            at_once fuel a more left n
              (cc (returns a (λ v. poll_loop scripted fuel guid v) more n)),
        λ t. back (known (taken fuel a more left t)),
      )
      | inr (inl u) ↦ (
        λ e.
            later fuel a more left u
              (ih.0 (sym (waits a (λ v. poll_loop scripted fuel guid v) more u) ∙ e)),
        λ t. back (known (taken fuel a more left t)),
      )
      | inr (inr s) ↦ (λ e. absurd (s _ more left e), λ t. back (known (taken fuel a more left t)))
    ]
  where
    back :
        (NotFound a × (more ≡ left))
          ⊎ (Undecided a × (poll_loop scripted fuel guid more ≡ some (ok tt, left)))
        → read_deletion scripted (λ v. poll_loop scripted fuel guid v) (a, more)
          ≡ some (ok tt, left)
    back (inl (n, e)) =
        returns a (λ v. poll_loop scripted fuel guid v) more n ∙ ap (λ v. some (ok tt, v)) e
    back (inr (u, e)) = waits a (λ v. poll_loop scripted fuel guid v) more u ∙ e
