-- ===== src/Broker/Update/Null.antt =====
-- On a request to broker/update.go whose context is null.
use on_demand_service_broker.Prelude.{
  ◌≡◌, ◌≢◌, refl, ◌∙◌, true, none, some, List, String, ok, panic,
}
use on_demand_service_broker.Json.{null, object, Object, end, get, set}
use on_demand_service_broker.Json.Laws.{get-set}
use on_demand_service_broker.Decider.{Operation, Service, returns, decide_operation}
use on_demand_service_broker.Broker.Clients.{CatalogInfo, Clients}
use on_demand_service_broker.Broker.Provision.{
  RawJson, absent, invalid, parsed, convert_details_to_map,
}
use on_demand_service_broker.Broker.Upgrade.{UpdateRequest}
use on_demand_service_broker.Broker.Update.{services_or_empty, keys_of, update_steps, update}

module _ {W : Type 0} (b : Clients W) (decode : String → RawJson) (instance_id : String)
    (request : UpdateRequest) (catalog : List (Service CatalogInfo)) (whole : Object)
    (w w1 : W) where
  -- The decider decides for an update, and the request, whose parameters can be read, has a null context.
  pub record HasNullContext : Type 0 where
    pub has_catalog : services_or_empty b decode w ≡ (ok catalog, w1)
    pub decides :
        decide_operation b.equals (λ raw. keys_of (decode raw)) catalog request.details
        ≡ returns (Operation.update, none)
    pub readable : decode request.details.raw_parameters ≢ invalid
    pub is_map : request.as_map ≡ ok whole
    pub null_context : get "context" whole ≡ some null

  steps_panic : HasNullContext → update_steps b decode instance_id request w1 ≡ (panic, w1)
  unfolding update_steps convert_details_to_map
  steps_panic h = by_params (decode request.details.raw_parameters) refl
    where
      with_params : (p : Object) → get "context" (set "parameters" (object p) whole) ≡ some null
      with_params p = get-set "parameters" "context" (object p) whole refl ∙ h.null_context

      by_params :
          (r : RawJson)
          → decode request.details.raw_parameters ≡ r
          → update_steps b decode instance_id request w1 ≡ (panic, w1)
      by_params absent e = rw (e, h.is_map, with_params end) refl
      by_params invalid e = absurd (h.readable e)
      by_params (parsed p) e = rw (e, h.is_map, with_params p) refl

  -- An update that may be asynchronous, that the decider decides as such, and whose parameters are
  -- absent or can be read, panics where the context of the request is null.
  pub update_panics_on_null_context :
      HasNullContext → update b decode instance_id request true w ≡ (panic, w1)
  unfolding update
  update_panics_on_null_context h = rw (h.has_catalog, h.decides, steps_panic h) refl
