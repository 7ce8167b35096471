-- ===== src/Triggerers/States.antt =====
-- On the states with which the triggerers of instanceiterator/ answer.
use on_demand_service_broker.Prelude.{
  nat_eq, ◌≡◌, refl, subst, ◌↔◌, ◌⊎◌, inl, inr, Option, none, some, true, false, Bool, String,
  eq_iff, Error, Result, ok, err, panic, next, arith, if◌then◌else◌,
}
use on_demand_service_broker.IteratorState.Data.{
  OperationState, accepted, skipped, failed, in_progress, instance_not_found, orphan_deployment,
  Instance, TriggeredOperation,
}
use on_demand_service_broker.Triggerers.{
  BoshOperation, Response, extract_operation_from, bosh_trigger_state,
  translate_bosh_trigger_response, BrokerServices, process_instance, bosh_trigger_operation,
  cf_check_state, translate_cf_trigger_response, translate_cf_check_response, CfClient,
  cf_trigger_operation, decoded, renamed,
}

-- The states that a trigger by BOSH can answer with.
abbrev pub IsBoshAnswer : OperationState → Type 0
IsBoshAnswer state =
    (state ≡ accepted)
    ⊎ (state ≡ skipped)
    ⊎ (state ≡ in_progress)
    ⊎ (state ≡ instance_not_found)
    ⊎ (state ≡ orphan_deployment)

abbrev Answered : Result BoshOperation → Type 0
Answered (ok o) = IsBoshAnswer (bosh_trigger_state o.type_of)
Answered (err e) = Unit
Answered panic = Unit

either_answers :
    (b : Bool) (x y : Result BoshOperation)
    → Answered x
    → Answered y
    → Answered (if b then x else y)
either_answers true x y h k = h
either_answers false x y h k = k

decoded-answers :
    {A : Type 0} (o : Option A) (f : A → Result BoshOperation) (e : Error)
    → ((a : A) → Answered (f a))
    → Answered (decoded o f e)
decoded-answers none f e h = tt
decoded-answers (some a) f e h = h a

extract_operation_from-answers : (r : Response) → Answered (extract_operation_from r)
unfolding extract_operation_from bosh_trigger_state
extract_operation_from-answers r =
    either_answers (nat_eq r.status_code 202) _ _
      (decoded-answers r.as_operation_data _ _ (λ d. inl refl))
      (either_answers (nat_eq r.status_code 404) _ _ (inr (inr (inr (inl refl)))) (
        either_answers (nat_eq r.status_code 410) _ _ (inr (inr (inr (inr refl)))) (
          either_answers (nat_eq r.status_code 409) _ _ (inr (inr (inl refl))) (
            either_answers (nat_eq r.status_code 204) _ _ (inr (inl refl)) (
              either_answers (nat_eq r.status_code 500) _ _
                (decoded-answers r.as_description _ _ (λ text. tt)) tt)))))

module _ {W : Type 0} where
  abbrev AnsweredIn : Result TriggeredOperation × W → Type 0
  AnsweredIn (ok op, w) = IsBoshAnswer op.state
  AnsweredIn (err e, w) = Unit
  AnsweredIn (panic, w) = Unit

  translated-answers :
      (x : Result BoshOperation) (w : W)
      → Answered x
      → AnsweredIn (
          next
            (λ o w'. (ok (translate_bosh_trigger_response o), w'))
            (renamed "operation failed for service instance" (x, w)))
  unfolding translate_bosh_trigger_response
  translated-answers (ok o) w h = h
  translated-answers (err e) w h = tt
  translated-answers panic w h = tt

  requested-answers :
      (x : Result Response × W)
      → AnsweredIn (
          next
            (λ o w'. (ok (translate_bosh_trigger_response o), w'))
            (renamed "operation failed for service instance"
              (next (λ r w'. (extract_operation_from r, w')) x)))
  requested-answers (ok r, w) =
      translated-answers (extract_operation_from r) w (extract_operation_from-answers r)
  requested-answers (err e, w) = tt
  requested-answers (panic, w) = tt

  in_answer :
      (x : Result TriggeredOperation × W) (op : TriggeredOperation) (w : W)
      → AnsweredIn x
      → x ≡ (ok op, w)
      → IsBoshAnswer op.state
  in_answer x op w h e = subst AnsweredIn e h

  -- A trigger by BOSH that returns no error answers with one of the states accepted, skipped, busy,
  -- instance not found and orphan deployment, whatever the broker's response is; so it never answers
  -- with the state failed.
  pub bosh_trigger_operation_answers :
      (services : BrokerServices W) (operation_type : String) (i : Instance) (w w' : W)
      (op : TriggeredOperation)
      → bosh_trigger_operation services operation_type i w ≡ (ok op, w')
      → IsBoshAnswer op.state
  unfolding bosh_trigger_operation process_instance
  bosh_trigger_operation_answers services operation_type i w w' op e =
      in_answer (bosh_trigger_operation services operation_type i w) op w'
        (requested-answers (services.request i operation_type w)) e

module _ {W Mi : Type 0} (client : CfClient W Mi) (i : Instance) where
  translate-failed_iff :
      (state : String) → ((translate_cf_trigger_response state).state ≡ failed) ↔ (state ≡ "failed")
  unfolding translate_cf_trigger_response translate_cf_check_response cf_check_state
  translate-failed_iff state = (λ h. ground (arith, eq_iff state "failed"), λ h. rw h refl)

  -- A trigger by Cloud Foundry of which both calls succeed returns no error; it answers with the state
  -- failed exactly when the last operation has failed.
  pub cf_trigger_operation_failed_iff :
      (w w1 w2 : W) (info : Mi) (state : String)
      → client.plan_maintenance_info i.guid w ≡ (ok info, w1)
      → client.upgrade_service_instance i.guid info w1 ≡ (ok state, w2)
      → (op : TriggeredOperation) × (cf_trigger_operation client i w ≡ (ok op, w2))
        × ((op.state ≡ failed) ↔ (state ≡ "failed"))
  unfolding cf_trigger_operation
  cf_trigger_operation_failed_iff w w1 w2 info state h k =
      (translate_cf_trigger_response state, rw (h, k) refl, translate-failed_iff state)
