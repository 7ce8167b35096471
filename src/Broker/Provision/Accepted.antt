-- ===== src/Broker/Provision/Accepted.antt =====
-- On when broker/provision.go creates a deployment: the whole of a request.
use on_demand_service_broker.Prelude.{
  ℕ, ◌+◌, ◌≤◌, ◌≡◌, refl, ◌∙◌, ◌⊎◌, inl, inr, Bool, true, false, Option, none, some, List, String,
  ok, try, pure, fail,
}
use on_demand_service_broker.Prelude.Worlds.{next_leaves, follow_leaves, Keeps, Keeps-try}
use on_demand_service_broker.Json.{get}
use on_demand_service_broker.Decider.{Service, Call, returns, panics, can_provision, DeciderError}
use on_demand_service_broker.Broker.{bosh_request_error}
use on_demand_service_broker.Broker.Clients.{CatalogInfo, Clients}
use on_demand_service_broker.Broker.Catalog.{services}
use on_demand_service_broker.Broker.Uaa.{get_instance_name_from_context}
use on_demand_service_broker.Broker.Provision.{
  ProvisionDetails, convert_details_to_map, provision_steps, provision, decided, from_context,
}
use on_demand_service_broker.Broker.Provision.Counting.{
  CountsCreations, still, services_none, convert_none, decided_none, from_context_none, name_none,
}
use on_demand_service_broker.Broker.Provision.Guards.{
  IsAdmitted, Guarded, instance-Guarded, at_most, At, Below,
}

module _ {W : Type 0} (b : Clients W) (count : W → ℕ) (c : CountsCreations b count)
    (instance_id : String) where
  decided_of_ok :
      (d : Call (Option DeciderError)) (w : W) (u : Unit {0})
      → (decided d w).0 ≡ ok u
      → d ≡ returns none
  decided_of_ok panics w u e = cc
  decided_of_ok (returns none) w u e = refl
  decided_of_ok (returns (some x)) w u e = cc

  module _ (details : ProvisionDetails) where
    -- The catalog of the broker admits the request, and the calls answered as for an instance admitted.
    pub record IsAccepted : Type 0 where
      pub asked_broker : W
      pub catalog : List (Service CatalogInfo)
      pub has_catalog : (services b asked_broker).0 ≡ ok catalog
      pub admits :
          can_provision b.equals catalog details.plan_id details.maintenance_info ≡ returns none
      pub is_admitted : IsAdmitted b instance_id details.plan_id

    abbrev Accepted : ℕ → W → Type 0
    Accepted n v = Below b count c instance_id n v × (At b count c instance_id n v ⊎ IsAccepted)

    no_effect : {n : ℕ} (w : W) → count w ≡ n → Accepted n w
    no_effect w h = (at_most b count c instance_id w h, inl h)

    steps_guarded :
        (n : ℕ) (w : W) → count w ≡ n → Accepted n (provision_steps b instance_id details w).1
    unfolding provision_steps
    steps_guarded n w e =
        next_leaves (At b count c instance_id n) (Accepted n)
          (convert_details_to_map details.raw_parameters details.as_map w) _
          ((convert_none b count c details.raw_parameters details.as_map).at w ∙ e) no_effect
          λ params _ e1.
            next_leaves (At b count c instance_id n) (Accepted n) (services b _) _
              ((services_none b count c).at _ ∙ e1) no_effect
              λ catalog s e2.
                let verdict =
                  can_provision b.equals catalog details.plan_id details.maintenance_info in
                next_leaves (At b count c instance_id n) (Accepted n) (decided verdict _) _
                  ((decided_none b count c verdict).at _ ∙ e2) no_effect
                  λ u d e3.
                    next_leaves (At b count c instance_id n) (Accepted n)
                      (try b.broker.get_info (λ e. fail (bosh_request_error e)) pure _) _
                      ((info_kept).at _ ∙ e3) no_effect
                      λ _ _ e4.
                        next_leaves (At b count c instance_id n) (Accepted n)
                          (from_context get_instance_name_from_context (get "context" params) _) _
                          ((from_context_none b count c get_instance_name_from_context
                                (get "context" params) (name_none b count c)).at
                              _
                            ∙ e4)
                          no_effect
                          λ name _ e5. accepted_with catalog _ s (decided_of_ok verdict _ u d) (
                            instance-Guarded b count c instance_id details.plan_id params name n _
                              e5)
      where
        info_kept : Keeps count (try b.broker.get_info (λ e. fail (bosh_request_error e)) pure)
        info_kept = Keeps-try c.info_none (λ _. still b count c) (λ _. still b count c)

        accepted_with :
            (catalog : List (Service CatalogInfo)) (asked : W)
            → (services b asked).0 ≡ ok catalog
            → can_provision b.equals catalog details.plan_id details.maintenance_info ≡ returns none
            → {v : W} → Guarded b count c instance_id details.plan_id n v
            → Accepted n v
        accepted_with catalog asked s d (l, inl h) = (l, inl h)
        accepted_with catalog asked s d (l, inr a) = (
          l,
          inr (record {
            asked_broker = asked;
            catalog = catalog;
            has_catalog = s;
            admits = d;
            is_admitted = a;
          }),
        )

    -- A request for a new instance makes the deployer create at most one deployment, whatever the
    -- calls answer and however the world changes. It makes it create one only if the decider admits
    -- the request by the catalog, the plan is known, the director answers that the deployment is
    -- not found, and the quotas allow one more instance by the counts that the platform answers.
    -- This holds where the calls other than the deployer's create no deployment, and this one
    -- creates one at most.
    pub provision_guarded :
        (async_allowed : Bool) (w : W)
        → let v = (provision b instance_id details async_allowed w).1 in
          (count v ≤ count w + 1) × ((count v ≡ count w) ⊎ IsAccepted)
    unfolding provision
    provision_guarded false w = no_effect w refl
    provision_guarded true w =
        follow_leaves (Accepted (count w)) (Accepted (count w))
          (provision_steps b instance_id details w) _ _ (steps_guarded (count w) w refl) (λ _ a. a)
          (λ _ _ a. a) (λ _ _ a. a)
