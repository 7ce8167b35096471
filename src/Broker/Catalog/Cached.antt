-- ===== src/Broker/Catalog/Cached.antt =====
-- On the catalog that broker/catalog.go keeps.
use on_demand_service_broker.Prelude.{
  ◌≡◌, refl, ap, subst, some, List, [], ◌∷◌, Result, ok, err, panic, Option-cases, inl, inr, next,
}
use on_demand_service_broker.Decider.{ServicePlan, Service}
use on_demand_service_broker.Broker.Clients.{CatalogInfo, Clients}
use on_demand_service_broker.Broker.Catalog.{services, service_plans, keep_catalog, cached_or_made}

module _ {W : Type 0} (b : Clients W)
    (reads_back : (c : List (Service CatalogInfo)) (w : W)
      → b.cached_catalog (b.cache_catalog c w) ≡ some c) where
  kept_after :
      (r : Result (List (ServicePlan CatalogInfo)) × W) (catalog : List (Service CatalogInfo))
      (v : W)
      → next (keep_catalog b) r ≡ (ok catalog, v)
      → b.cached_catalog v ≡ some catalog
  kept_after (ok plans, w) catalog v e = cc (reads_back (record { plans = plans } ∷ []) w)
  kept_after (err x, w) catalog v e = cc
  kept_after (panic, w) catalog v e = cc

  -- Once the catalog has been made, asking again gives the same catalog and changes nothing, so that
  -- the adapter is not asked again. This holds where the broker's field reads what was written.
  pub services_again :
      (w v : W) (catalog : List (Service CatalogInfo))
      → services b w ≡ (ok catalog, v)
      → services b v ≡ (ok catalog, v)
  unfolding services
  services_again w v catalog e = elim (Option-cases (b.cached_catalog w)) [
    | inl none_yet ↦
        rw
          (kept_after (service_plans b b.broker.service_offering.plans w) catalog v
            (rw none_yet at e))
          refl
    | inr (c, there) ↦ same_world c there (rw there at e)
  ]
    where
      same_world :
          (c : List (Service CatalogInfo))
          → b.cached_catalog w ≡ some c
          → cached_or_made b (some c) w ≡ (ok catalog, v)
          → cached_or_made b (b.cached_catalog v) v ≡ (ok catalog, v)
      same_world c there e' =
          subst (λ u. cached_or_made b (b.cached_catalog u) u ≡ (ok catalog, u)) (ap (λ r. r.1) e')
            (rw there (ap (λ r. (r.0, w)) e'))
