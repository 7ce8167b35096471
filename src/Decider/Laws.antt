-- ===== src/Decider/Laws.antt =====
-- On the decisions of DecideOperation of broker/decider/decider.go.
use on_demand_service_broker.Prelude.{
  ◌≡◌, refl, ap, sym, ◌∙◌, ◌↔◌, ◌⊎◌, inl, inr, Bool, Option, none, some, List, [], ◌∷◌, String,
  Option-cases,
}
use on_demand_service_broker.Decider.{
  Service, UpdateDetails, update, upgrade, failed, DeciderError, returns, panics, find_plan,
  check_requested, check_previous, decide_operation, validate_previous_maintenance_info,
}
use on_demand_service_broker.Decider.Validation.{
  IsCurrent, IsAdmitted, PreviousAllows, check_requested-IsCurrent_iff,
  check_requested-IsAdmitted_iff, previous_valid_iff,
}
use on_demand_service_broker.Decider.Verdict.{
  IsUpgrade, validate_previous-returns, asks_upgrade, asks_upgrade_iff, returns-injective,
  verdict-upgrade_iff, verdict-update_iff, verdict_outcome, decide_operation-verdict,
}

module _ {Mi : Type 0} (equals : Mi → Mi → Bool) where
  module _ (unmarshal : String → Option (List String)) where
    module _ (service : Service Mi) (others : List (Service Mi)) (details : UpdateDetails Mi) where
      -- The decision is an upgrade exactly when the request carries the maintenance info that the
      -- catalog gives its plan, names the plan that the instance already has, brings no
      -- parameters, and differs from the previous maintenance info.
      pub decide_operation-upgrade_iff :
          (decide_operation equals unmarshal (service ∷ others) details ≡ returns (upgrade, none))
          ↔ (IsCurrent equals service details × IsUpgrade equals unmarshal details)
      decide_operation-upgrade_iff =
          let (previous, h) = validate_previous-returns equals unmarshal details service others in
          let (to, from) =
            verdict-upgrade_iff equals unmarshal
              (check_requested equals details.maintenance_info
                (find_plan details.plan_id service.plans))
              previous (asks_upgrade equals unmarshal details) in
          rw (decide_operation-verdict equals unmarshal service others details previous h) (
            λ e.
                let (valid, asked) = to (returns-injective equals unmarshal e) in
                (
                  (check_requested-IsCurrent_iff equals service details).0 valid,
                  (asks_upgrade_iff equals unmarshal details).0 asked,
                ),
            λ c. ap returns (
                from (
                  (check_requested-IsCurrent_iff equals service details).1 c.0,
                  (asks_upgrade_iff equals unmarshal details).1 c.1,
                )),
          )

      previous_allows :
          (previous : Option DeciderError)
          → validate_previous_maintenance_info equals details (service ∷ others) ≡ returns previous
          → (previous ≡ none) ↔ PreviousAllows equals service details
      unfolding validate_previous_maintenance_info
      previous_allows previous h = elim (Option-cases details.previous_maintenance_info) [
        | inl e ↦ rw e (λ _. tt, λ _. cc (h, e))
        | inr (m, e) ↦
            let read : check_previous equals (some m)
                  (find_plan details.previous_plan_id service.plans)
                ≡ previous =
              cc (rw e at h) in
            let (to, from) = previous_valid_iff equals m service details.previous_plan_id in
            rw e (λ p. to (read ∙ p), λ a. sym read ∙ from a)
      ]

      -- The decision is an update exactly when the plan of the request is in the catalog, the
      -- request carries the maintenance info of that plan or none at all, the maintenance info
      -- recorded of the instance, if any is, is what the catalog gives its previous plan, if that
      -- plan is listed, and it is no upgrade: it does not at once carry the maintenance info of
      -- its plan, name the plan that the instance already has, bring no parameters, and differ
      -- from the recorded maintenance info.
      pub decide_operation-update_iff :
          (decide_operation equals unmarshal (service ∷ others) details ≡ returns (update, none))
          ↔ (IsAdmitted equals service details
              × (¬ (IsCurrent equals service details × IsUpgrade equals unmarshal details))
              × PreviousAllows equals service details)
      decide_operation-update_iff =
          let (previous, h) = validate_previous-returns equals unmarshal details service others in
          let (to, from) =
            verdict-update_iff equals unmarshal
              (check_requested equals details.maintenance_info
                (find_plan details.plan_id service.plans))
              previous (asks_upgrade equals unmarshal details) in
          let (admitted, admits) = check_requested-IsAdmitted_iff equals service details in
          let (current, currents) = check_requested-IsCurrent_iff equals service details in
          let (upgrades, upgraded) = asks_upgrade_iff equals unmarshal details in
          let (allowed, allows) = previous_allows previous h in
          rw (decide_operation-verdict equals unmarshal service others details previous h) (
            λ e.
                let (valid, other, fits) = to (returns-injective equals unmarshal e) in
                (admitted valid, λ u. other (currents u.0, upgraded u.1), allowed fits),
            λ a. ap returns (from (admits a.0, λ u. a.1 (current u.0, upgrades u.1), allows a.2)),
          )

    -- DecideOperation panics exactly on an empty catalog. In every other case it upgrades or updates
    -- with no error, or fails with one.
    pub decide_operation_outcome :
        (catalog : List (Service Mi)) (details : UpdateDetails Mi)
        → ((decide_operation equals unmarshal catalog details ≡ panics) ↔ (catalog ≡ []))
          × ((decide_operation equals unmarshal catalog details ≡ panics)
              ⊎ (decide_operation equals unmarshal catalog details ≡ returns (upgrade, none))
              ⊎ (decide_operation equals unmarshal catalog details ≡ returns (update, none))
              ⊎ ((x : DeciderError) × (decide_operation equals unmarshal catalog details
                    ≡ returns (failed, some x))))
    decide_operation_outcome [] details =
        let e : decide_operation equals unmarshal [] details ≡ panics =
          unfold decide_operation in refl in
        ((λ _. refl, λ _. e), inl e)
    decide_operation_outcome (service ∷ others) details =
        let (previous, h) = validate_previous-returns equals unmarshal details service others in
        rw (decide_operation-verdict equals unmarshal service others details previous h) (
          (λ e. cc, λ e. cc),
          inr
              (elim (verdict_outcome equals unmarshal _ previous
                (asks_upgrade equals unmarshal details)) [
                  | inl e ↦ inl (ap returns e)
                  | inr (inl e) ↦ inr (inl (ap returns e))
                  | inr (inr (x, e)) ↦ inr (inr (x, ap returns e))
                ]),
        )
