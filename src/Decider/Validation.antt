-- ===== src/Decider/Validation.antt =====
-- On the validations of broker/decider/decider.go, and CanProvision.
use on_demand_service_broker.Prelude.{
  ◌≡◌, refl, ap, ◌↔◌, ◌⊎◌, inl, inr, Bool, true, false, Option, none, some, List, [], ◌∷◌, String,
  ◌==◌, arith, Bool-cases,
}
use on_demand_service_broker.Decider.{
  ServicePlan, Service, UpdateDetails, DeciderError, returns, found, missing, find_plan,
  unless_warning, check_requested, check_previous, maintenance_info_conflict?, can_provision,
  values_differ, plan_does_not_exist,
}

module _ {Mi : Type 0} (equals : Mi → Mi → Bool) where
  pub found-injective : {a b : Option Mi} → found a ≡ found b → a ≡ b
  found-injective e = cc

  -- Two optional values agree: both are absent, or both are there and equal.
  abbrev pub Same : Option Mi → Option Mi → Type 0
  Same none none = Unit
  Same (some a) (some b) = equals a b ≡ true
  Same _ _ = ⊥

  -- The plan that the catalog lists under the identifier asks for this maintenance info.
  abbrev pub Plans : Service Mi → String → Option Mi → Type 0
  Plans service id planned = find_plan id service.plans ≡ found planned

  -- The request carries what the plan asks for.
  abbrev pub IsCurrent : Service Mi → UpdateDetails Mi → Type 0
  IsCurrent service details =
      (planned : Option Mi) × Plans service details.plan_id planned
      × Same details.maintenance_info planned

  pub find_plan-cases :
      (id : String) (plans : List (ServicePlan Mi))
      → ((planned : Option Mi) × (find_plan id plans ≡ found planned))
        ⊎ (find_plan id plans ≡ missing (plan_does_not_exist id))
  unfolding find_plan
  find_plan-cases id [] = inr refl
  find_plan-cases id (plan ∷ plans) = elim (Bool-cases (plan.id == id)) [
    | inl hit ↦ inl (plan.maintenance_info, rw hit)
    | inr miss ↦ rw miss (find_plan-cases id plans)
  ]

  pub conflict_iff : (a b : Option Mi) → (maintenance_info_conflict? equals a b ≡ false) ↔ Same a b
  unfolding maintenance_info_conflict?
  conflict_iff none none = ground arith
  conflict_iff (some a) none = ground arith
  conflict_iff none (some b) = ground arith
  conflict_iff (some a) (some b) = ground arith

  pub admitted_iff :
      (requested planned : Option Mi)
      → (unless_warning (check_requested equals requested (found planned)) ≡ none)
        ↔ (Same requested planned ⊎ (requested ≡ none))
  unfolding unless_warning check_requested
  admitted_iff none none = ground arith
  admitted_iff none (some p) = ground arith
  admitted_iff (some r) none = ground arith
  admitted_iff (some r) (some p) = ground arith

  -- A new instance is admitted exactly when its plan is in the catalog, and the request carries
  -- either the maintenance info of the plan or none at all.
  pub can_provision_iff :
      (service : Service Mi) (others : List (Service Mi)) (id : String) (requested : Option Mi)
      → (can_provision equals (service ∷ others) id requested ≡ returns none) ↔ (
          (planned : Option Mi) × Plans service id planned
          × (Same requested planned ⊎ (requested ≡ none)))
  unfolding can_provision
  can_provision_iff service others id requested = elim (find_plan-cases id service.plans) [
    | inl (planned, e) ↦
        let (to, from) = admitted_iff requested planned in
        rw e
          (λ h. (planned, refl, to (cc h)), λ h. ap returns (from (rw (found-injective h.1) h.2)))
    | inr e ↦ rw e (λ h. cc, λ h. cc)
  ]

  pub differ_iff : (a b : Option Mi) → (values_differ equals a b ≡ true) ↔ (¬ Same a b)
  unfolding values_differ
  differ_iff none none = (λ h. cc, λ h. absurd (h tt))
  differ_iff (some a) none = (λ h s. s, λ h. refl)
  differ_iff none (some b) = (λ h s. s, λ h. refl)
  differ_iff (some a) (some b) = elim (Bool-cases (equals a b)) [
    | inl e ↦ rw e (λ h. cc, λ h. absurd (h refl))
    | inr e ↦ rw e (λ h s. cc, λ h. refl)
  ]

  pub current_iff :
      (requested planned : Option Mi)
      → (check_requested equals requested (found planned) ≡ none) ↔ Same requested planned
  unfolding check_requested
  current_iff requested planned =
      elim (Bool-cases (maintenance_info_conflict? equals requested planned)) [
        | inl e ↦ rw e (λ h. cc, λ h. cc ((conflict_iff requested planned).1 h))
        | inr e ↦ rw e (λ h. (conflict_iff requested planned).0 e, λ h. refl)
      ]

  pub missing_invalid :
      (requested : Option Mi) (e : DeciderError)
      → ¬ (check_requested equals requested (missing e) ≡ none)
  unfolding check_requested
  missing_invalid requested e h = cc

  -- The request carries what its plan asks for, or none at all.
  abbrev pub IsAdmitted : Service Mi → UpdateDetails Mi → Type 0
  IsAdmitted service details =
      (planned : Option Mi) × Plans service details.plan_id planned
      × (Same details.maintenance_info planned ⊎ (details.maintenance_info ≡ none))

  -- The plan is not listed under the identifier, or it asks for this maintenance info.
  abbrev pub Listed : Service Mi → String → Option Mi → Type 0
  Listed service id m = (planned : Option Mi) → Plans service id planned → Same m planned

  abbrev AllowsPrevious : Service Mi → String → Option Mi → Type 0
  AllowsPrevious service id none = Unit
  AllowsPrevious service id (some m) = Listed service id (some m)

  -- The maintenance info recorded of the instance, if any is, is what the catalog gives its previous
  -- plan, if that is listed.
  abbrev pub PreviousAllows : Service Mi → UpdateDetails Mi → Type 0
  PreviousAllows service details =
      AllowsPrevious service details.previous_plan_id details.previous_maintenance_info

  pub check_requested-IsCurrent_iff :
      (service : Service Mi) (details : UpdateDetails Mi)
      → (check_requested equals details.maintenance_info (find_plan details.plan_id service.plans)
          ≡ none)
        ↔ IsCurrent service details
  check_requested-IsCurrent_iff service details =
      elim (find_plan-cases details.plan_id service.plans) [
        | inl (planned, e) ↦
            let (to, from) = current_iff details.maintenance_info planned in
            rw e (λ h. (planned, refl, to h), λ c. from (rw (found-injective c.1) c.2))
        | inr e ↦ rw e (λ h. absurd (missing_invalid _ _ h), λ c. cc (c.1))
      ]

  pub check_requested-IsAdmitted_iff :
      (service : Service Mi) (details : UpdateDetails Mi)
      → (unless_warning (
            check_requested equals details.maintenance_info
              (find_plan details.plan_id service.plans))
          ≡ none)
        ↔ IsAdmitted service details
  unfolding unless_warning check_requested
  check_requested-IsAdmitted_iff service details =
      elim (find_plan-cases details.plan_id service.plans) [
        | inl (planned, e) ↦
            let (to, from) = admitted_iff details.maintenance_info planned in
            rw e (λ h. (planned, refl, to h), λ c. from (rw (found-injective c.1) c.2))
        | inr e ↦ rw e (λ h. cc, λ c. cc (c.1))
      ]

  pub previous_valid_iff :
      (m : Mi) (service : Service Mi) (id : String)
      → (check_previous equals (some m) (find_plan id service.plans) ≡ none)
        ↔ Listed service id (some m)
  unfolding check_previous
  previous_valid_iff m service id = elim (find_plan-cases id service.plans) [
    | inl (planned, e) ↦
        let (to, from) = conflict_iff (some m) planned in
        rw e (
          λ h p f. rw (← found-injective f) (to (ground arith)),
          λ l. ground (arith, from (l planned refl)),
        )
    | inr e ↦ rw e (λ h p f. cc, λ l. refl)
  ]
