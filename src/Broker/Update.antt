-- ===== src/Broker/Update.antt =====
-- broker/update.go: an update of an instance, which the decider may turn into an upgrade. The decoding of the
-- parameters of the request is the function `decode`.
pub mod Null
use on_demand_service_broker.Prelude.{
  ℕ, Bool, true, false, not, ltb, length, ◌==◌, Option, none, some, List, [], ◌∷◌, String, Error,
  other, failure_response, typed, has_type, Result, ok, err, panic, Io, ◌>>=◌, pure, fail, try,
  if◌then◌else◌,
}
use on_demand_service_broker.Prelude.Dict.{Dict}
use on_demand_service_broker.Json.{Value, object, Object, end, field, get}
use on_demand_service_broker.Config.{Plan, find_plan_by_id, post_deploy_errands}
use on_demand_service_broker.OperationData.{OperationData}
use on_demand_service_broker.OperationData
use on_demand_service_broker.Decider.{
  Operation, DeciderError, Call, returns, panics, decide_operation, UpdateDetails, Service,
}
use on_demand_service_broker.Quotas.{check_quotas}
use on_demand_service_broker.Broker.{deployment_name, process_error, generic_error}
use on_demand_service_broker.Broker.Clients.{CatalogInfo, Clients}
use on_demand_service_broker.Broker.Catalog.{
  services, plan_schema, validate_schema, validate_params,
}
use on_demand_service_broker.Broker.Uaa.{get_service_instance_client}
use on_demand_service_broker.Broker.Provision.{
  RawJson, absent, invalid, parsed, processed, convert_details_to_map, decider_error,
  quotas_or_fail,
}
use on_demand_service_broker.Broker.Upgrade.{
  UpdateRequest, Started, handle_update_error, after_deploy, upgrade_instance,
}

-- An update that had nothing to do is not asynchronous, and has none of the rest.
pub data UpdateServiceSpec : Type 0 where
  already_completed : UpdateServiceSpec
  asynchronous : Started → UpdateServiceSpec

abbrev names : Object → List String
names end = []
names (field name value rest) = name ∷ names rest

-- The keys of the decoded parameters, `none` for an error.
abbrev pub keys_of : RawJson → Option (List String)
keys_of absent = none
keys_of invalid = none
keys_of (parsed params) = some (names params)

module _ {W : Type 0} where
  abbrev pub operation_or_fail : Call (Operation × Option DeciderError) → Io W Operation
  operation_or_fail panics = λ w. (panic, w)
  operation_or_fail (returns (op, none)) = pure op
  operation_or_fail (returns (op, some e)) = fail (decider_error e)

  -- `if requestContext, ok := detailsMap["context"]; ok { ... }`: a type assertion on the value.
  abbrev pub context_of : Option Value → Io W Object
  context_of none = pure end
  context_of (some (object context)) = pure context
  context_of (some value) = λ w. (panic, w)

  abbrev pub plan_in_catalog : Option Plan → Io W Plan
  plan_in_catalog none = fail (typed "PlanNotFoundError" (other "plan does not exist"))
  plan_in_catalog (some plan) = pure plan

  abbrev params_or_fail : RawJson → Io W Object
  params_or_fail absent = pure end
  params_or_fail invalid = fail (other "update request params are malformed")
  params_or_fail (parsed params) = pure params

module _ {W : Type 0} (b : Clients W) (decode : String → RawJson) where
  -- Services, with its error dropped: an empty catalog.
  unfoldable pub services_or_empty : Io W (List (Service CatalogInfo))
  unfolding services
  services_or_empty = try (services b) (λ _. pure []) pure

  unfoldable pub validate_quotas_for_update : Plan → UpdateRequest → Io W (Unit {0})
  unfolding check_quotas generic_error
  validate_quotas_for_update plan request =
      if request.details.previous_plan_id == plan.id
      then pure tt
      else try (b.count_instances_of_service_offering b.broker.service_offering.id)
          (λ e. fail (generic_error e))
          (λ counts. quotas_or_fail (check_quotas b.broker.service_offering plan counts))

  unfoldable pub validate_plan_schemas : Plan → UpdateRequest → Io W (Unit {0})
  unfolding plan_schema validate_schema validate_params
  validate_plan_schemas plan request =
      if b.enable_plan_schemas
      then (plan_schema b plan >>= λ schemas. validate_schema b schemas.instance_update >>= λ _.
          params_or_fail (decode request.details.raw_parameters) >>= λ params.
          try (validate_params b schemas.instance_update params)
            (λ e. fail (failure_response "params-validation-failed")) pure)
      else pure tt

  unfoldable pub get_secret_map : String → Io W (Dict String)
  unfolding deployment_name
  get_secret_map instance_id = b.get_manifest (deployment_name instance_id) >>= λ found.
      b.variables (deployment_name instance_id) >>= λ variables.
      b.resolve_manifest_secrets found.0 variables

  abbrev pub context_id_for_errands : Plan → Io W String
  unfolding post_deploy_errands
  context_id_for_errands plan =
      if ltb 0 (length (post_deploy_errands plan)) then b.broker.new_uuid else pure ""

  unfoldable pub do_update :
      String → UpdateRequest → Object → Object → Option (Dict String) → Io W UpdateServiceSpec
  unfolding find_plan_by_id validate_quotas_for_update validate_plan_schemas get_secret_map
      deployment_name handle_update_error after_deploy generic_error context_id_for_errands
  do_update instance_id request details_map context client =
      plan_in_catalog (find_plan_by_id b.broker.service_offering request.details.plan_id)
      >>= λ plan. validate_quotas_for_update plan request >>= λ _.
          validate_plan_schemas plan request >>= λ _. context_id_for_errands plan >>= λ context_id.
          try (get_secret_map instance_id) (λ e. fail (generic_error e))
            (λ secrets.
              try
                (b.deployer.update (deployment_name instance_id) request.details.plan_id details_map
                  (some request.details.previous_plan_id) context_id secrets client)
                (λ e. fail (handle_update_error e))
                (after_deploy b OperationData.update instance_id plan context_id client context))
          >>= λ started. pure (asynchronous started)

  unfoldable pub update_steps : String → UpdateRequest → Io W UpdateServiceSpec
  unfolding convert_details_to_map generic_error get get_service_instance_client do_update
  update_steps instance_id request =
      try (convert_details_to_map (decode request.details.raw_parameters) request.as_map)
        (λ e. fail (generic_error e))
        (λ details_map. context_of (get "context" details_map) >>= λ context.
          try (get_service_instance_client b instance_id context) (λ e. fail (generic_error e))
            (do_update instance_id request details_map context))

  unfoldable pub do_upgrade : String → UpdateRequest → Io W UpdateServiceSpec
  unfolding upgrade_instance
  do_upgrade instance_id request =
      try (upgrade_instance b instance_id request)
        (λ e.
          if has_type "OperationAlreadyCompletedError" e then pure already_completed else fail e)
        (λ started. pure (asynchronous started))

  abbrev pub by_operation : String → UpdateRequest → Operation → Io W UpdateServiceSpec
  unfolding do_upgrade update_steps process_error
  by_operation instance_id request Operation.upgrade = do_upgrade instance_id request
  by_operation instance_id request Operation.update = processed b (update_steps instance_id request)
  by_operation instance_id request Operation.failed = processed b (update_steps instance_id request)

  unfoldable pub update : String → UpdateRequest → Bool → Io W UpdateServiceSpec
  unfolding services_or_empty decide_operation process_error by_operation
  update instance_id request async_allowed =
      if not async_allowed
      then processed b (fail (failure_response "async-required"))
      else (services_or_empty >>= λ catalog.
          processed b (
            operation_or_fail
              (decide_operation b.equals (λ raw. keys_of (decode raw)) catalog request.details))
          >>= by_operation instance_id request)
