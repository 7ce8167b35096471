-- ===== src/Broker/Upgrade/Nameless.antt =====
-- On the UAA clients that broker/upgrade.go and broker/update.go create.
use on_demand_service_broker.Prelude.{◌≡◌, refl, ◌∙◌, true, none, some, List, String, ok, fail, try}
use on_demand_service_broker.Json.{text, object, Object, end, get, set}
use on_demand_service_broker.Json.Laws.{get-set}
use on_demand_service_broker.Config.{Plan}
use on_demand_service_broker.Decider.{Operation, Service, returns, decide_operation}
use on_demand_service_broker.Broker.{generic_error}
use on_demand_service_broker.Broker.Clients.{CatalogInfo, Clients}
use on_demand_service_broker.Broker.Uaa.{
  get_service_instance_client, get_instance_name_from_context, get_space_guid_from_context,
}
use on_demand_service_broker.Broker.Provision.{
  RawJson, absent, invalid, parsed, processed, context_id_if, convert_details_to_map,
}
use on_demand_service_broker.Broker.Upgrade.{UpdateRequest, upgrade_plan, deploy_upgrade}
use on_demand_service_broker.Broker.Update.{
  services_or_empty, keys_of, do_update, update_steps, update,
}

-- The parameters that a request brings; none are the empty object.
abbrev pub Brings : RawJson → Object → Type 0
Brings absent params = params ≡ end
Brings invalid params = ⊥
Brings (parsed given) params = params ≡ given

module _ {W : Type 0} (b : Clients W) (decode : String → RawJson)
    (instance_id name space_guid context_id : String) (context params whole : Object)
    (request : UpdateRequest) (plan : Plan) (catalog : List (Service CatalogInfo))
    (w w1 w2 v v1 v2 : W) where
  -- The context of the request can be read, and the instance has no UAA client yet.
  pub record UpgradesWithoutClient : Type 0 where
    pub has_context : request.raw_context ≡ parsed context
    pub has_context_id : context_id_if b plan.lifecycle_errands w ≡ (ok context_id, w1)
    pub no_client : b.uaa.get_client instance_id w1 ≡ (ok none, w2)

  -- The decider decides for an update, the request can be read, its context names the instance and the
  -- space, and the instance has no UAA client yet.
  pub record UpdatesWithoutClient : Type 0 where
    pub has_catalog : services_or_empty b decode v ≡ (ok catalog, v1)
    pub decides :
        decide_operation b.equals (λ raw. keys_of (decode raw)) catalog request.details
        ≡ returns (Operation.update, none)
    pub has_params : Brings (decode request.details.raw_parameters) params
    pub is_map : request.as_map ≡ ok whole
    pub has_context : get "context" whole ≡ some (object context)
    pub names_instance : get "instance_name" context ≡ some (text name)
    pub names_space : get "space_guid" context ≡ some (text space_guid)
    pub no_client : b.uaa.get_client instance_id v1 ≡ (ok none, v2)

  params_map :
      (raw : RawJson)
      → Brings raw params
      → convert_details_to_map raw (ok whole) v1 ≡ (ok (set "parameters" (object params) whole), v1)
  unfolding convert_details_to_map
  params_map absent h = rw h refl
  params_map invalid h = elim h [ ]
  params_map (parsed given) h = rw h refl

  steps_lem :
      UpdatesWithoutClient
      → update_steps b decode instance_id request v1
        ≡ try
            (b.uaa.create_client instance_id name space_guid)
            (λ e. fail (generic_error e))
            (do_update b decode instance_id request
              (set "parameters" (object params) whole)
              context)
            v2
  unfolding update_steps get_service_instance_client get_instance_name_from_context
      get_space_guid_from_context
  steps_lem h =
      let converted = params_map (decode request.details.raw_parameters) h.has_params in
      let has_context = get-set "parameters" "context" (object params) whole refl ∙ h.has_context in
      rw (h.is_map, converted, has_context, h.no_client, h.names_instance, h.names_space) refl

  -- Where the instance has no UAA client, an upgrade creates one with an empty name and an empty
  -- space, whatever the context of the request names; an update, decided as such from a request whose
  -- parameters are absent or can be read, creates it with the name and the space of the context.
  pub upgrade_plan_creates_nameless :
      UpgradesWithoutClient
      → UpdatesWithoutClient
      → (upgrade_plan b instance_id request plan w
          ≡ try
              (b.uaa.create_client instance_id "" "")
              (λ e. fail (generic_error e))
              (deploy_upgrade b instance_id plan context_id context)
              w2)
        × (update b decode instance_id request true v
            ≡ processed b
                (try
                  (b.uaa.create_client instance_id name space_guid)
                  (λ e. fail (generic_error e))
                  (do_update b decode instance_id request
                    (set "parameters" (object params) whole)
                    context))
                v2)
  unfolding upgrade_plan update get_service_instance_client get_instance_name_from_context
      get_space_guid_from_context get
  upgrade_plan_creates_nameless g h = (
    rw (g.has_context_id, g.has_context, g.no_client) refl,
    rw (h.has_catalog, h.decides, steps_lem h) refl,
  )
