-- ===== src/Broker/Catalog.antt =====
-- broker/catalog.go and broker/schema.go: the catalog that the broker shows, kept from the first time
-- that it is made. Of a service and its plans the model has the fields that the operations read.
pub mod Merging
pub mod Cached
use on_demand_service_broker.Prelude.{
  Bool, true, false, not, ◌||◌, ◌==◌, Option, none, some, List, [], ◌∷◌, String, Error, other,
  wrapped, failure_response, has_type, Result, ok, err, panic, Io, ◌>>=◌, pure, fail, try,
  if◌then◌else◌,
}
use on_demand_service_broker.Prelude.Dict.{Dict}
use on_demand_service_broker.Json.{Object, Value, text, get}
use on_demand_service_broker.Config.{MaintenanceInfo, Plan, ServiceOffering, copy_map, adapter_plan}
use on_demand_service_broker.Decider.{ServicePlan, Service}
use on_demand_service_broker.Broker.Clients.{CatalogInfo, ServiceSchemas, Clients}

-- A nil map is `none`.
abbrev pub normalize : Dict String → Option (Dict String)
normalize [] = none
normalize (entry ∷ entries) = some (entry ∷ entries)

-- `if info != nil { copyMap(dst, info.Public) }`
unfoldable pub copy_of :
    (MaintenanceInfo → Dict String) → Option MaintenanceInfo → Dict String → Dict String
unfolding copy_map
copy_of f none dst = dst
copy_of f (some info) dst = copy_map dst (f info)

unfoldable pub merge_maintenance_info :
    Option MaintenanceInfo → Option MaintenanceInfo → Option (Dict String) × Option (Dict String)
unfolding copy_of
merge_maintenance_info none none = (none, none)
merge_maintenance_info global plan = (
  normalize (copy_of (λ i. i.public) plan (copy_of (λ i. i.public) global [])),
  normalize (copy_of (λ i. i.private) plan (copy_of (λ i. i.private) global [])),
)

abbrev text_of : (MaintenanceInfo → String) → Option MaintenanceInfo → String
text_of f none = ""
text_of f (some info) = f info

-- getMaintenanceInfoVersion and getMaintenanceInfoDescription
unfoldable pub prefer_plan :
    (MaintenanceInfo → String) → Option MaintenanceInfo → Option MaintenanceInfo → String
prefer_plan f global none = text_of f global
prefer_plan f global (some info) = if f info == "" then text_of f global else f info

abbrev is_set : Option (Dict String) → Bool
is_set none = false
is_set (some m) = true

abbrev or_empty : Option (Dict String) → Dict String
or_empty none = []
or_empty (some m) = m

abbrev not_implemented : Error
not_implemented =
    other
      "enable_plan_schemas is set to true, but the service adapter does not implement generate-plan-schemas"

module _ {W : Type 0} (b : Clients W) where
  unfoldable pub generate_maintenance_info : Plan → Option CatalogInfo
  unfolding merge_maintenance_info prefer_plan
  generate_maintenance_info plan =
      let global = b.broker.service_offering.maintenance_info in
      let merged = merge_maintenance_info global plan.maintenance_info in
      let version = prefer_plan (λ i. i.version) global plan.maintenance_info in
      if is_set merged.0 || (is_set merged.1 || not (version == ""))
      then some (record {
        public = or_empty merged.0;
        private = b.hash (or_empty merged.1);
        version = version;
        description = prefer_plan (λ i. i.description) global plan.maintenance_info;
      })
      else none

  abbrev pub check_version : Option Value → Io W (Unit {0})
  check_version none = fail (other "failed validating schema - no JSON Schema provided")
  check_version (some (text version)) =
      if version == "http://json-schema.org/draft-04/schema#"
      then pure tt
      else fail (other "failed validating schema - only JSON Schema version draft-04 is supported")
  check_version (some value) =
      fail (other "failed validating schema - only JSON Schema version draft-04 is supported")

  unfoldable pub validate_schema : Object → Io W (Unit {0})
  unfolding get
  validate_schema schema = check_version (get "$schema" schema) >>= λ _.
      if b.conforms schema
      then pure tt
      else fail (other "failed validating schema - schema does not conform to JSON Schema spec")

  abbrev pub read_validation : Result Bool → Io W (Unit {0})
  read_validation (ok true) = pure tt
  read_validation (ok false) = fail (other "validation against JSON schema failed")
  read_validation (err e) =
      fail (other "error occurred when attempting to validate against JSON schema")
  read_validation panic = λ w. (panic, w)

  -- ValidateParams of a validator whose schema has not been validated yet.
  unfoldable pub validate_params : Object → Object → Io W (Unit {0})
  unfolding validate_schema
  validate_params schema params =
      validate_schema schema >>= λ _. read_validation (b.validate schema params)

  abbrev labelled : String → Error → Io W (Unit {0})
  labelled label e = fail (wrapped label e)

  unfoldable pub validate_plan_schemas : ServiceSchemas → Io W (Unit {0})
  unfolding validate_schema
  validate_plan_schemas schemas =
      try (validate_schema schemas.instance_create) (labelled "instance create") λ _.
        try (validate_schema schemas.instance_update) (labelled "instance update")
          λ _. try (validate_schema schemas.binding_create) (labelled "binding create") pure

  -- The call of the adapter, with its error for a command that it does not implement.
  unfoldable pub plan_schema : Plan → Io W ServiceSchemas
  unfolding adapter_plan
  plan_schema plan =
      try
        (b.adapter.generate_plan_schema
          (adapter_plan plan b.broker.service_offering.global_properties))
        (λ e. if has_type "NotImplementedError" e then fail not_implemented else fail e) pure

  unfoldable pub generate_plan_schemas : Plan → Io W (Option ServiceSchemas)
  unfolding plan_schema validate_plan_schemas
  generate_plan_schemas plan =
      if b.enable_plan_schemas
      then (plan_schema plan >>= λ schemas.
          try (validate_plan_schemas schemas) (λ e. fail (wrapped "Invalid JSON Schema for plan" e))
            (λ _. pure (some schemas)))
      else pure none

  unfoldable pub generate_service_plan : Plan → Io W (ServicePlan CatalogInfo)
  unfolding generate_maintenance_info generate_plan_schemas
  generate_service_plan plan = generate_plan_schemas plan >>= λ schemas.
      pure (record { id = plan.id; maintenance_info = generate_maintenance_info plan })

  unfoldable pub service_plans : List Plan → Io W (List (ServicePlan CatalogInfo))
  unfolding generate_service_plan
  service_plans [] = pure []
  service_plans (plan ∷ plans) =
      generate_service_plan plan >>= λ p. service_plans plans >>= λ ps. pure (p ∷ ps)

  abbrev pub keep_catalog : List (ServicePlan CatalogInfo) → Io W (List (Service CatalogInfo))
  keep_catalog plans w =
      let catalog = record { plans = plans } ∷ [] in (ok catalog, b.cache_catalog catalog w)

  abbrev pub cached_or_made :
      Option (List (Service CatalogInfo)) → Io W (List (Service CatalogInfo))
  unfolding service_plans
  cached_or_made (some catalog) = pure catalog
  cached_or_made none = service_plans b.broker.service_offering.plans >>= keep_catalog

  unfoldable pub services : Io W (List (Service CatalogInfo))
  unfolding cached_or_made
  services w = cached_or_made (b.cached_catalog w) w
