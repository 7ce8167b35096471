-- ===== src/Decider/Verdict.antt =====
-- On how DecideOperation of broker/decider/decider.go puts its decision together.
use on_demand_service_broker.Prelude.{
  ◌≡◌, refl, ◌↔◌, ◌⊎◌, inl, inr, Bool, true, false, Option, none, some, List, [], ◌∷◌, String,
  eq_iff, arith, Option-cases, ◌&&◌,
}
use on_demand_service_broker.Decider.{
  Service, UpdateDetails, Operation, update, upgrade, failed, DeciderError, returns, find_plan,
  check_requested, decide_operation, or_update, maintenance_info_nil_in_the_request,
  request_params_empty, plan_not_changed, unless_warning, request_maintenance_info_values_differ,
  validate_previous_maintenance_info, decide_from,
}
use on_demand_service_broker.Decider.Validation.{Same, differ_iff}

module _ {Mi : Type 0} (equals : Mi → Mi → Bool) where
  module _ (unmarshal : String → Option (List String)) where
    -- There are no parameters, or they decode to an object with no key.
    abbrev pub NoParams : UpdateDetails Mi → Type 0
    NoParams details = (details.raw_parameters ≡ "") ⊎ (unmarshal details.raw_parameters ≡ some [])

    no_params_lem :
        (details : UpdateDetails Mi)
        → (request_params_empty unmarshal details ≡ true) ↔ NoParams details
    unfolding request_params_empty
    no_params_lem details = (
      λ h. ground (arith, eq_iff details.raw_parameters ""),
      λ h. ground (arith, eq_iff details.raw_parameters ""),
    )

    -- What is asked for is an upgrade, and nothing else.
    pub record IsUpgrade (details : UpdateDetails Mi) : Type 0 where
      pub same_plan : details.plan_id ≡ details.previous_plan_id
      pub no_params : NoParams details
      pub changed : ¬ Same equals details.maintenance_info details.previous_maintenance_info

    pub validate_previous-returns :
        (details : UpdateDetails Mi) (service : Service Mi) (others : List (Service Mi))
        → (e : Option DeciderError) × (validate_previous_maintenance_info equals details
              (service ∷ others)
            ≡ returns e)
    unfolding validate_previous_maintenance_info
    validate_previous-returns details service others =
        elim (Option-cases details.previous_maintenance_info) [
          | inl e ↦ rw e (none, refl)
          | inr (m, e) ↦ rw e (_, refl)
        ]

    pub asks_upgrade : UpdateDetails Mi → Bool
    asks_upgrade details =
        plan_not_changed details
        && request_params_empty unmarshal details
        && request_maintenance_info_values_differ equals details

    pub asks_upgrade_iff :
        (details : UpdateDetails Mi) → (asks_upgrade details ≡ true) ↔ IsUpgrade details
    unfolding asks_upgrade plan_not_changed request_maintenance_info_values_differ
    asks_upgrade_iff details = (
      λ h. record {
        same_plan = (eq_iff _ _).0 (ground arith);
        no_params = (no_params_lem details).0 (ground arith);
        changed = (differ_iff equals _ _).0 (ground arith);
      },
      λ u. simp (
        (eq_iff _ _).1 u.same_plan,
        (no_params_lem details).1 u.no_params,
        (differ_iff equals _ _).1 u.changed,
      ),
    )

    pub returns-injective : {a b : Operation × Option DeciderError} → returns a ≡ returns b → a ≡ b
    returns-injective e = cc

    -- The decision from the outcomes of the two validations and the test for an upgrade.
    pub verdict : Option DeciderError → Option DeciderError → Bool → Operation × Option DeciderError
    unfolding or_update
    verdict none previous true = (upgrade, none)
    verdict none previous false = or_update previous
    verdict (some maintenance_info_nil_in_the_request) previous asked = or_update previous
    verdict (some e) previous asked = (failed, some e)

    pub verdict-upgrade_iff :
        (e previous : Option DeciderError) (asked : Bool)
        → (verdict e previous asked ≡ (upgrade, none)) ↔ ((e ≡ none) × (asked ≡ true))
    unfolding verdict
    verdict-upgrade_iff none none true = ground arith
    verdict-upgrade_iff none _ _ = ground arith
    verdict-upgrade_iff (some maintenance_info_nil_in_the_request) none asked = ground arith
    verdict-upgrade_iff (some _) previous asked = ground arith

    pub verdict-update_iff :
        (e previous : Option DeciderError) (asked : Bool)
        → (verdict e previous asked ≡ (update, none))
          ↔ ((unless_warning e ≡ none) × (¬ ((e ≡ none) × (asked ≡ true))) × (previous ≡ none))
    unfolding verdict unless_warning
    verdict-update_iff none previous true = (λ h. cc, λ h. absurd (h.1 (refl, refl)))
    verdict-update_iff none none false = (λ h. (refl, λ n. cc (n.1), refl), λ h. refl)
    verdict-update_iff none (some x) false = (λ h. cc, λ h. cc (h.2))
    verdict-update_iff (some maintenance_info_nil_in_the_request) none asked =
        (λ h. (refl, λ n. cc (n.0), refl), λ h. refl)
    verdict-update_iff (some maintenance_info_nil_in_the_request) (some x) asked =
        (λ h. cc, λ h. cc (h.2))
    verdict-update_iff (some _) previous asked = (λ h. cc, λ h. cc (h.0))

    pub verdict_outcome :
        (e previous : Option DeciderError) (asked : Bool)
        → (verdict e previous asked ≡ (upgrade, none))
          ⊎ (verdict e previous asked ≡ (update, none))
          ⊎ ((x : DeciderError) × (verdict e previous asked ≡ (failed, some x)))
    unfolding verdict
    verdict_outcome none previous true = inl refl
    verdict_outcome none none false = inr (inl refl)
    verdict_outcome none (some x) false = inr (inr (x, refl))
    verdict_outcome (some maintenance_info_nil_in_the_request) none asked = inr (inl refl)
    verdict_outcome (some maintenance_info_nil_in_the_request) (some x) asked = inr (inr (x, refl))
    verdict_outcome (some _) previous asked = inr (inr (_, refl))

    module _ (service : Service Mi) (others : List (Service Mi)) (details : UpdateDetails Mi) where
      decide_from-verdict :
          (e previous : Option DeciderError)
          → validate_previous_maintenance_info equals details (service ∷ others) ≡ returns previous
          → decide_from equals unmarshal (service ∷ others) details e
            ≡ returns (verdict e previous (asks_upgrade details))
      unfolding decide_from verdict asks_upgrade
      decide_from-verdict none previous h = ground arith
      decide_from-verdict (some maintenance_info_nil_in_the_request) previous h = ground arith
      decide_from-verdict (some _) previous h = refl

      pub decide_operation-verdict :
          (previous : Option DeciderError)
          → validate_previous_maintenance_info equals details (service ∷ others) ≡ returns previous
          → decide_operation equals unmarshal (service ∷ others) details
            ≡ returns (
                verdict
                  (check_requested equals details.maintenance_info
                    (find_plan details.plan_id service.plans))
                  previous
                  (asks_upgrade details))
      unfolding decide_operation
      decide_operation-verdict previous h = decide_from-verdict _ previous h
