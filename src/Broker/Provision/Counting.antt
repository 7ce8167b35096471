-- ===== src/Broker/Provision/Counting.antt =====
-- On the calls of broker/provision.go that create no deployment.
use on_demand_service_broker.Prelude.{
  ℕ, ◌+◌, ◌≤◌, ◌≡◌, Bool, true, false, Option, none, some, List, [], ◌∷◌, String, ◌==◌, has_type,
  Result, ok, err, panic, Io,
}
use on_demand_service_broker.Prelude.Dict.{Dict}
use on_demand_service_broker.Prelude.Worlds.{Keeps, Keeps-still, Keeps-next, Keeps-try, Keeps-if}
use on_demand_service_broker.Json.{Object, Value, text, object, null, other_value, get}
use on_demand_service_broker.Task.{Deployed}
use on_demand_service_broker.Config.{LifecycleErrands, Plan, AdapterPlan}
use on_demand_service_broker.Decider.{Service, Call, returns, panics, DeciderError}
use on_demand_service_broker.Quotas.{QuotaError, check_quotas}
use on_demand_service_broker.Broker.Clients.{CatalogInfo, Clients}
use on_demand_service_broker.Broker.Catalog.{
  services, service_plans, generate_service_plan, generate_plan_schemas, plan_schema, check_version,
  validate_schema, validate_plan_schemas, validate_params, read_validation, cached_or_made,
}
use on_demand_service_broker.Broker.Provision.{
  RawJson, absent, invalid, parsed, convert_details_to_map, check_plan_schemas, decided,
  from_context, quotas_or_fail, not_found_or_fail, finish_provision, context_id_if, check_absent,
  check_room, parameters_object,
}
use on_demand_service_broker.Broker.Uaa.{
  get_instance_name_from_context, get_space_guid_from_context, text_or_panic,
}

-- `count` is the number of deployments that the deployer has created: one at most in each of its own
-- calls, and none in the others.
pub record CountsCreations {W : Type 0} (b : Clients W) (count : W → ℕ) : Type 0 where
  pub create_one :
      (n p : String) (o : Object) (c : String) (u : Option (Dict String)) (w : W)
      → count (b.deployer.create n p o c u w).1 ≤ count w + 1
  pub cache_none : (c : List (Service CatalogInfo)) (w : W) → count (b.cache_catalog c w) ≡ count w
  pub schema_none : (p : AdapterPlan) → Keeps count (b.adapter.generate_plan_schema p)
  pub url_none :
      (i : String) (p : AdapterPlan) (m : String)
      → Keeps count (b.adapter.generate_dashboard_url i p m)
  pub info_none : Keeps count b.broker.get_info
  pub uuid_none : Keeps count b.broker.new_uuid
  pub manifest_none : (n : String) → Keeps count (b.get_manifest n)
  pub instances_none : (i : String) → Keeps count (b.count_instances_of_service_offering i)
  pub create_client_none : (i n s : String) → Keeps count (b.uaa.create_client i n s)
  pub update_client_none : (i u s : String) → Keeps count (b.uaa.update_client i u s)

module _ {W : Type 0} (b : Clients W) (count : W → ℕ) (c : CountsCreations b count) where
  pub still : {A : Type 0} {r : Result A} → Keeps {W = W} count (λ w. (r, w))
  still {A} {r} = Keeps-still count r

  check_version_none : (v : Option Value) → Keeps count (check_version b v)
  check_version_none none = still
  check_version_none (some (text v)) =
      Keeps-if (v == "http://json-schema.org/draft-04/schema#") still still
  check_version_none (some null) = still
  check_version_none (some (object o)) = still
  check_version_none (some (other_value v)) = still

  validate_schema_none : (s : Object) → Keeps count (validate_schema b s)
  unfolding validate_schema
  validate_schema_none s =
      Keeps-next (check_version_none (get "$schema" s)) (λ _. Keeps-if (b.conforms s) still still)

  read_validation_none : (r : Result Bool) → Keeps count (read_validation b r)
  read_validation_none (ok true) = still
  read_validation_none (ok false) = still
  read_validation_none (err e) = still
  read_validation_none panic = still

  validate_params_none : (s p : Object) → Keeps count (validate_params b s p)
  unfolding validate_params
  validate_params_none s p =
      Keeps-next (validate_schema_none s) (λ _. read_validation_none (b.validate s p))

  plan_schema_none : (p : Plan) → Keeps count (plan_schema b p)
  unfolding plan_schema
  plan_schema_none p =
      Keeps-try (c.schema_none _) (λ e. Keeps-if (has_type "NotImplementedError" e) still still)
        (λ _. still)

  validate_plan_schemas_none : (s : _) → Keeps count (validate_plan_schemas b s)
  unfolding validate_plan_schemas
  validate_plan_schemas_none s =
      Keeps-try (validate_schema_none s.instance_create) (λ _. still)
        λ _.
          Keeps-try (validate_schema_none s.instance_update) (λ _. still)
            λ _. Keeps-try (validate_schema_none s.binding_create) (λ _. still) (λ _. still)

  service_plans_none : (ps : List Plan) → Keeps count (service_plans b ps)
  unfolding service_plans generate_service_plan generate_plan_schemas
  service_plans_none [] = still
  service_plans_none (p ∷ ps) =
      Keeps-next
        (Keeps-next
          (Keeps-if b.enable_plan_schemas
            (Keeps-next (plan_schema_none p)
              λ s. Keeps-try (validate_plan_schemas_none s) (λ _. still) (λ _. still))
            still)
          (λ _. still))
        λ _. Keeps-next (service_plans_none ps) (λ _. still)

  pub services_none : Keeps count (services b)
  unfolding services
  services_none = record { at = λ w. (by_cache (b.cached_catalog w)).at w }
    where
      by_cache : (o : Option (List (Service CatalogInfo))) → Keeps count (cached_or_made b o)
      by_cache (some catalog) = still
      by_cache none =
          Keeps-next (service_plans_none b.broker.service_offering.plans)
            (λ plans. record { at = λ v. c.cache_none _ v })

  params_none : (o : Option Value) → Keeps {W = W} count (parameters_object o)
  params_none none = still
  params_none (some null) = still
  params_none (some (text s)) = still
  params_none (some (object p)) = still
  params_none (some (other_value s)) = still

  pub check_plan_schemas_none : (o : Object) (p : Plan) → Keeps count (check_plan_schemas b o p)
  unfolding check_plan_schemas
  check_plan_schemas_none o p =
      Keeps-if b.enable_plan_schemas
        (Keeps-next (plan_schema_none p) λ s.
          Keeps-next (validate_schema_none s.instance_create) λ _.
            Keeps-next (params_none (get "parameters" o))
              λ q. Keeps-try (validate_params_none s.instance_create q) (λ _. still) (λ _. still))
        still

  pub convert_none :
      (r : RawJson) (d : Result Object) → Keeps {W = W} count (convert_details_to_map r d)
  unfolding convert_details_to_map
  convert_none absent (ok o) = still
  convert_none absent (err e) = still
  convert_none absent panic = still
  convert_none invalid d = still
  convert_none (parsed p) (ok o) = still
  convert_none (parsed p) (err e) = still
  convert_none (parsed p) panic = still

  pub decided_none : (d : Call (Option DeciderError)) → Keeps {W = W} count (decided d)
  decided_none panics = still
  decided_none (returns none) = still
  decided_none (returns (some e)) = still

  text_none : (v : Option Value) → Keeps {W = W} count (text_or_panic v)
  text_none none = still
  text_none (some null) = still
  text_none (some (text s)) = still
  text_none (some (object o)) = still
  text_none (some (other_value s)) = still

  pub from_context_none :
      (f : Object → Io W String) (v : Option Value)
      → ((o : Object) → Keeps count (f o))
      → Keeps count (from_context f v)
  from_context_none f none k = still
  from_context_none f (some null) k = still
  from_context_none f (some (text s)) k = still
  from_context_none f (some (object o)) k = k o
  from_context_none f (some (other_value s)) k = still

  pub name_none : (o : Object) → Keeps {W = W} count (get_instance_name_from_context o)
  unfolding get_instance_name_from_context
  name_none o = text_none (get "instance_name" o)

  pub space_guid_none : (o : Object) → Keeps {W = W} count (get_space_guid_from_context o)
  unfolding get_space_guid_from_context
  space_guid_none o = text_none (get "space_guid" o)

  pub context_id_none : (e : Option LifecycleErrands) → Keeps count (context_id_if b e)
  context_id_none none = still
  context_id_none (some errands) = c.uuid_none

  pub finish_none :
      (i s : String) (p : Plan) (x : String) (d : Deployed)
      → Keeps count (finish_provision b i s p x d)
  unfolding finish_provision
  finish_none i s p x d =
      Keeps-try (c.url_none i _ d.deployed_manifest)
        (λ e. Keeps-if (has_type "NotImplementedError" e) still still)
        (λ url. Keeps-try (c.update_client_none i url s) (λ _. still) (λ _. still))

  pub check_absent_none : (i : String) → Keeps count (check_absent b i)
  unfolding check_absent
  check_absent_none i = Keeps-try (c.manifest_none _) (λ _. still) by_answer
    where
      by_answer : (r : String × Bool) → Keeps {W = W} count (not_found_or_fail r)
      by_answer (m, true) = still
      by_answer (m, false) = still

  pub check_room_none : (p : Plan) → Keeps count (check_room b p)
  unfolding check_room
  check_room_none p =
      Keeps-try (c.instances_none _) (λ _. still)
        (λ counts. by_quotas (check_quotas b.broker.service_offering p counts))
    where
      by_quotas : (q : List QuotaError) → Keeps {W = W} count (quotas_or_fail q)
      by_quotas [] = still
      by_quotas (e ∷ es) = still
