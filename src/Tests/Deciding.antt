-- ===== src/Tests/Deciding.antt =====
-- broker/decider/decider.go on a catalog of two plans.
use on_demand_service_broker.Prelude.{
  ℕ, ◌≡◌, refl, ◌↔◌, ◌⊎◌, nat_eq, true, false, Option, none, some, List, [], ◌∷◌, String, ◌==◌,
}
use on_demand_service_broker.Decider.{
  Service, UpdateDetails, update, upgrade, failed, DeciderError, maintenance_info_conflict, returns,
  panics, can_provision, decide_operation,
}
use on_demand_service_broker.Decider.Validation.{
  Same, Plans, IsCurrent, IsAdmitted, PreviousAllows, can_provision_iff,
}
use on_demand_service_broker.Decider.Verdict.{IsUpgrade}
use on_demand_service_broker.Decider.Laws.{
  decide_operation-upgrade_iff, decide_operation-update_iff, decide_operation_outcome,
}

abbrev no_service : List (Service ℕ)
no_service = []

abbrev catalog_service : Service ℕ
catalog_service = record {
  plans =
      record { id = "small"; maintenance_info = some 2 }
      ∷ record { id = "large"; maintenance_info = some 2 }
      ∷ [];
}

-- Text that is no JSON, and `{}`.
abbrev keys_of : String → Option (List String)
keys_of text = elim (text == "{}") [ true ↦ some [] | false ↦ none ]

abbrev version : ℕ → Option ℕ
version n = some n

abbrev asks : String → Option ℕ → Option ℕ → UpdateDetails ℕ
asks plan new old = record {
  plan_id = plan;
  raw_parameters = "{}";
  maintenance_info = new;
  previous_plan_id = "small";
  previous_maintenance_info = old;
}

upgrade_run :
    decide_operation nat_eq keys_of (catalog_service ∷ []) (asks "small" (some 2) (some 1))
    ≡ returns (upgrade, none)
unfolding decide_operation
upgrade_run = refl

conflict_run :
    decide_operation nat_eq keys_of (catalog_service ∷ []) (asks "large" (some 3) (some 2))
    ≡ returns (failed, some maintenance_info_conflict)
unfolding decide_operation
conflict_run = refl

can_provision_iff_example :
    (can_provision nat_eq (catalog_service ∷ []) "large" (some 2) ≡ returns none) ↔ (
      (planned : Option ℕ) × Plans nat_eq catalog_service "large" planned
      × (Same nat_eq (some 2) planned ⊎ (version 2 ≡ none)))
can_provision_iff_example = can_provision_iff nat_eq catalog_service [] "large" (some 2)

decide_operation-upgrade_iff_example :
    (decide_operation nat_eq keys_of (catalog_service ∷ []) (asks "small" (some 2) (some 1))
      ≡ returns (upgrade, none))
    ↔ (IsCurrent nat_eq catalog_service (asks "small" (some 2) (some 1))
        × IsUpgrade nat_eq keys_of (asks "small" (some 2) (some 1)))
decide_operation-upgrade_iff_example =
    decide_operation-upgrade_iff nat_eq keys_of catalog_service [] (asks "small" (some 2) (some 1))

update_run :
    decide_operation nat_eq keys_of (catalog_service ∷ []) (asks "large" (some 2) (some 2))
    ≡ returns (update, none)
unfolding decide_operation
update_run = refl

decide_operation-update_iff_example :
    let details = asks "large" (some 2) (some 2) in
    (decide_operation nat_eq keys_of (catalog_service ∷ []) details ≡ returns (update, none)) ↔ (
      IsAdmitted nat_eq catalog_service details
      × (¬ (IsCurrent nat_eq catalog_service details × IsUpgrade nat_eq keys_of details))
      × PreviousAllows nat_eq catalog_service details)
decide_operation-update_iff_example =
    decide_operation-update_iff nat_eq keys_of catalog_service [] (asks "large" (some 2) (some 2))

-- Nothing is recorded of the instance, whose plan asks for something in the catalog.
unrecorded_run :
    decide_operation nat_eq keys_of (catalog_service ∷ []) (asks "large" (some 2) none)
    ≡ returns (update, none)
unfolding decide_operation
unrecorded_run = refl

decide_operation_outcome_example :
    let decision = decide_operation nat_eq keys_of [] (asks "large" (some 2) (some 2)) in
    ((decision ≡ panics) ↔ (no_service ≡ []))
    × ((decision ≡ panics)
        ⊎ (decision ≡ returns (upgrade, none))
        ⊎ (decision ≡ returns (update, none))
        ⊎ ((x : DeciderError) × (decision ≡ returns (failed, some x))))
decide_operation_outcome_example =
    decide_operation_outcome nat_eq keys_of [] (asks "large" (some 2) (some 2))
