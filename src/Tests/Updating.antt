-- ===== src/Tests/Updating.antt =====
-- broker/upgrade.go, broker/update.go and broker/catalog.go on an instance without a UAA client.
use on_demand_service_broker.Prelude.{
  ◌≡◌, refl, true, none, some, [], ◌∷◌, String, ok, panic, try, fail,
}
use on_demand_service_broker.Prelude.Dict.{lookup}
use on_demand_service_broker.Json.{Object, object, end, field, null, get, set}
use on_demand_service_broker.Config.{MaintenanceInfo}
use on_demand_service_broker.Decider.{UpdateDetails, decide_operation}
use on_demand_service_broker.Broker.{generic_error}
use on_demand_service_broker.Broker.Clients.{CatalogInfo}
use on_demand_service_broker.Broker.Catalog.{merge_maintenance_info}
use on_demand_service_broker.Broker.Catalog.Merging.{
  prefer, read, merge_maintenance_info_prefers_plan,
}
use on_demand_service_broker.Broker.Provision.{RawJson, absent, parsed, processed}
use on_demand_service_broker.Broker.Upgrade.{UpdateRequest, upgrade_plan, deploy_upgrade}
use on_demand_service_broker.Broker.Upgrade.Nameless.{
  UpgradesWithoutClient, UpdatesWithoutClient, upgrade_plan_creates_nameless,
}
use on_demand_service_broker.Broker.Update.{services_or_empty, do_update, update}
use on_demand_service_broker.Broker.Update.Null.{HasNullContext, update_panics_on_null_context}
use on_demand_service_broker.Tests.Provisioning.{clients, catalog, small, context}

abbrev details : UpdateDetails CatalogInfo
details = record {
  plan_id = "small";
  raw_parameters = "";
  maintenance_info = none;
  previous_plan_id = "small";
  previous_maintenance_info = none;
}

abbrev request : UpdateRequest
request = record {
  details = details;
  raw_context = parsed context;
  as_map = ok (field "context" null end);
}

abbrev decode : String → RawJson
decode raw = absent

abbrev whole : Object
whole = field "context" (object context) end

abbrev naming : UpdateRequest
naming = record request { as_map = ok whole }

upgrades :
    UpgradesWithoutClient clients decode "x" "cache" "dev" "context" context end whole naming small
      catalog 0 0 0 0 0 0
upgrades = record { has_context = refl; has_context_id = refl; no_client = refl }

updates :
    UpdatesWithoutClient clients decode "x" "cache" "dev" "context" context end whole naming small
      catalog 0 0 0 0 0 0
unfolding services_or_empty decide_operation get
updates = record {
  has_catalog = refl;
  decides = refl;
  has_params = refl;
  is_map = refl;
  has_context = refl;
  names_instance = refl;
  names_space = refl;
  no_client = refl;
}

upgrade_plan_creates_nameless_example :
    (upgrade_plan clients "x" naming small 0
      ≡ try
          (clients.uaa.create_client "x" "" "")
          (λ e. fail (generic_error e))
          (deploy_upgrade clients "x" small "context" context)
          0)
    × (update clients decode "x" naming true 0
        ≡ processed clients
            (try
              (clients.uaa.create_client "x" "cache" "dev")
              (λ e. fail (generic_error e))
              (do_update clients decode "x" naming (set "parameters" (object end) whole) context))
            0)
upgrade_plan_creates_nameless_example =
    upgrade_plan_creates_nameless clients decode "x" "cache" "dev" "context" context end whole
      naming small catalog 0 0 0 0 0 0 upgrades updates

has_null_context : HasNullContext clients decode "x" request catalog (field "context" null end) 0 0
unfolding services_or_empty decide_operation get
has_null_context = record {
  has_catalog = refl;
  decides = refl;
  readable = λ e. cc;
  is_map = refl;
  null_context = refl;
}

update_panics_on_null_context_example : update clients decode "x" request true 0 ≡ (panic, 0)
update_panics_on_null_context_example =
    update_panics_on_null_context clients decode "x" request catalog (field "context" null end) 0 0
      has_null_context

abbrev of_offering : MaintenanceInfo
of_offering = record {
  public = ("stemcell", "1") ∷ ("docs", "here") ∷ [];
  private = [];
  version = "1.0.0";
  description = "";
}

abbrev of_plan : MaintenanceInfo
of_plan = record of_offering { public = ("stemcell", "2") ∷ [] }

merge_maintenance_info_prefers_plan_example :
    let merged = merge_maintenance_info (some of_offering) (some of_plan) in
    (read "stemcell" merged.0
      ≡ prefer (lookup "stemcell" of_plan.public) (lookup "stemcell" of_offering.public))
    × (read "stemcell" merged.1
        ≡ prefer (lookup "stemcell" of_plan.private) (lookup "stemcell" of_offering.private))
merge_maintenance_info_prefers_plan_example =
    merge_maintenance_info_prefers_plan "stemcell" (some of_offering) (some of_plan)
      (((λ e. cc), tt), (tt, tt)) (tt, tt) tt tt
