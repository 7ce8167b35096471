-- ===== src/Broker/Provision.antt =====
-- broker/provision.go: the creation of an instance. The details of the request come decoded, as text that
-- was or was not JSON; encoding the operation data does not fail.
pub mod Counting
pub mod Guards
pub mod Accepted
pub mod Handover
use on_demand_service_broker.Prelude.{
  ℕ, Bool, true, false, not, Option, none, some, List, [], ◌∷◌, String, Error, other, wrapped,
  request_error, displayable, failure_response, has_type, Result, ok, err, panic, Io, ◌>>=◌, pure,
  fail, try, if◌then◌else◌,
}
use on_demand_service_broker.Prelude.Dict.{Dict}
use on_demand_service_broker.Json.{Value, text, object, null, Object, end, get, set}
use on_demand_service_broker.Config.{
  LifecycleErrands, Plan, find_plan_by_id, post_deploy_errands, adapter_plan,
}
use on_demand_service_broker.OperationData.{create, OperationData, no_operation_data}
use on_demand_service_broker.Decider.{
  DeciderError, instance_must_be_upgraded_first, maintenance_info_nil_in_the_request,
  maintenance_info_nil_conflict, maintenance_info_conflict, plan_does_not_exist, Call, returns,
  panics, can_provision,
}
use on_demand_service_broker.Quotas.{QuotaError, check_quotas}
use on_demand_service_broker.Task.{Deployed}
use on_demand_service_broker.Broker.{
  deployment_name, process_error, generic_error, bosh_request_error, adapter_to_api_error,
}
use on_demand_service_broker.Broker.Clients.{CatalogInfo, Clients}
use on_demand_service_broker.Broker.Catalog.{
  services, plan_schema, validate_schema, validate_params,
}
use on_demand_service_broker.Broker.Uaa.{
  get_instance_name_from_context, get_space_guid_from_context,
}

-- Raw JSON: none, text that is no JSON object, or an object. `null` is an empty object.
pub data RawJson : Type 0 where
  absent invalid : RawJson
  parsed : Object → RawJson

pub record ProvisionDetails : Type 0 where
  pub plan_id : String
  pub maintenance_info : Option CatalogInfo
  pub raw_parameters : RawJson
  -- the whole request as a map, or the error of encoding it
  pub as_map : Result Object

pub record ProvisionedServiceSpec : Type 0 where
  pub operation_data : OperationData
  pub dashboard_url : String
  pub labels : Object

unfoldable pub decider_error : DeciderError → Error
decider_error instance_must_be_upgraded_first = failure_response "previous-maintenance-info-check"
decider_error maintenance_info_nil_in_the_request =
    other "maintenance info defined in broker service catalog, but not passed in request"
decider_error maintenance_info_nil_conflict = failure_response "MaintenanceInfoConflict"
decider_error maintenance_info_conflict = failure_response "MaintenanceInfoConflict"
decider_error (plan_does_not_exist id) = other "plan does not exist"

module _ {W : Type 0} where
  abbrev with_parameters : Result Object → Object → Io W Object
  unfolding set
  with_parameters (ok details) params = pure (set "parameters" (object params) details)
  with_parameters (err e) params = fail e
  with_parameters panic params = λ w. (panic, w)

  unfoldable pub convert_details_to_map : RawJson → Result Object → Io W Object
  unfolding with_parameters
  convert_details_to_map absent details = with_parameters details end
  convert_details_to_map invalid details = fail (failure_response "raw-params-invalid")
  convert_details_to_map (parsed params) details = with_parameters details params

  abbrev pub decided : Call (Option DeciderError) → Io W (Unit {0})
  decided panics = λ w. (panic, w)
  decided (returns none) = pure tt
  decided (returns (some e)) = fail (decider_error e)

  -- `if requestContext != nil { ... requestContext.(map[string]interface{}) }`
  abbrev pub from_context : (Object → Io W String) → Option Value → Io W String
  from_context f none = pure ""
  from_context f (some null) = pure ""
  from_context f (some (object context)) = f context
  from_context f (some value) = λ w. (panic, w)

  abbrev pub parameters_object : Option Value → Io W Object
  parameters_object (some (object params)) = pure params
  parameters_object value = fail (other "provision request params are malformed")

  abbrev pub plan_or_fail : Option Plan → Io W Plan
  plan_or_fail none = fail (displayable (other "plan not found") (other "finding plan ID"))
  plan_or_fail (some plan) = pure plan

  abbrev pub quotas_or_fail : List QuotaError → Io W (Unit {0})
  quotas_or_fail [] = pure tt
  quotas_or_fail (e ∷ es) = fail (other "quotas exceeded")

  abbrev pub not_found_or_fail : String × Bool → Io W (Unit {0})
  not_found_or_fail (manifest, false) = pure tt
  not_found_or_fail (manifest, true) =
      fail (displayable (failure_response "instance-already-exists") (other "deploying instance"))

module _ {W : Type 0} (b : Clients W) where
  abbrev pub processed : {A : Type 0} → Io W A → Io W A
  unfolding process_error
  processed m = try m (λ e. fail (process_error b.broker.expose_operational_errors e)) pure

  -- `switch err.(type)` on the error of GetDeployment
  abbrev pub manifest_error : Error → Error
  unfolding bosh_request_error generic_error
  manifest_error (request_error message) =
      bosh_request_error (wrapped "could not get manifest" (request_error message))
  manifest_error e = generic_error (wrapped "could not get manifest" e)

  abbrev pub create_error : Error → Error
  unfolding bosh_request_error generic_error adapter_to_api_error
  create_error (request_error message) = bosh_request_error (request_error message)
  create_error (displayable for_user for_operator) = displayable for_user for_operator
  create_error e =
      if has_type "UnknownFailureError" e then adapter_to_api_error e else generic_error e

  abbrev pub context_id_if : Option LifecycleErrands → Io W String
  context_id_if none = pure ""
  context_id_if (some errands) = b.broker.new_uuid

  unfoldable pub check_plan_schemas : Object → Plan → Io W (Unit {0})
  unfolding plan_schema validate_schema validate_params get
  check_plan_schemas params plan =
      if b.enable_plan_schemas
      then (plan_schema b plan >>= λ schemas. validate_schema b schemas.instance_create >>= λ _.
          parameters_object (get "parameters" params) >>= λ to_validate.
          try (validate_params b schemas.instance_create to_validate)
            (λ e. fail (failure_response "params-validation-failed")) pure)
      else pure tt

  abbrev pub created_data : Plan → String → Deployed → OperationData
  created_data plan context_id deployed = record no_operation_data {
    bosh_task_id = deployed.task_id;
    operation_type = create;
    bosh_context_id = context_id;
    errands = post_deploy_errands plan;
  }

  -- Where GenerateDashboardUrl returns an error, its URL is empty.
  abbrev pub created_spec : Plan → String → Deployed → String → ProvisionedServiceSpec
  created_spec plan context_id deployed url = record {
    operation_data = created_data plan context_id deployed;
    dashboard_url = url;
    labels = deployed.deployed_labels;
  }

  -- After the deployment: the dashboard URL is optional.
  unfoldable pub finish_provision :
      String → String → Plan → String → Deployed → Io W ProvisionedServiceSpec
  unfolding adapter_plan adapter_to_api_error generic_error post_deploy_errands
  finish_provision instance_id space_guid plan context_id deployed =
      try
        (b.adapter.generate_dashboard_url instance_id
          (adapter_plan plan b.broker.service_offering.global_properties)
          deployed.deployed_manifest)
        (λ e.
          if has_type "NotImplementedError" e
          then pure (created_spec plan context_id deployed "")
          else fail (adapter_to_api_error e))
        (λ url.
          try (b.uaa.update_client instance_id url space_guid) (λ e. fail (generic_error e))
            (λ _. pure (created_spec plan context_id deployed url)))

  -- provisionInstance from the creation of the UAA client on.
  unfoldable pub deploy_instance : String → String → Object → Plan → Io W ProvisionedServiceSpec
  unfolding get get_space_guid_from_context deployment_name generic_error create_error
      finish_provision
  deploy_instance instance_id instance_name params plan =
      context_id_if plan.lifecycle_errands >>= λ context_id.
      from_context get_space_guid_from_context (get "context" params) >>= λ space_guid.
      try (b.uaa.create_client instance_id instance_name space_guid) (λ e. fail (generic_error e))
        (λ client.
          try (b.deployer.create (deployment_name instance_id) plan.id params context_id client)
            (λ e. fail (create_error e)) (finish_provision instance_id space_guid plan context_id))

  unfoldable pub check_absent : String → Io W (Unit {0})
  unfolding deployment_name manifest_error
  check_absent instance_id =
      try (b.get_manifest (deployment_name instance_id)) (λ e. fail (manifest_error e))
        not_found_or_fail

  unfoldable pub check_room : Plan → Io W (Unit {0})
  unfolding generic_error check_quotas
  check_room plan =
      try (b.count_instances_of_service_offering b.broker.service_offering.id)
        (λ e. fail (generic_error e))
        (λ counts. quotas_or_fail (check_quotas b.broker.service_offering plan counts))

  unfoldable pub provision_instance :
      String → String → Object → String → Io W ProvisionedServiceSpec
  unfolding find_plan_by_id check_absent check_room check_plan_schemas deploy_instance
  provision_instance instance_id plan_id params instance_name =
      plan_or_fail (find_plan_by_id b.broker.service_offering plan_id) >>= λ plan.
      check_absent instance_id >>= λ _. check_room plan >>= λ _.
      check_plan_schemas params plan >>= λ _. deploy_instance instance_id instance_name params plan

  -- What stands between the test of asyncAllowed and the answer.
  unfoldable pub provision_steps : String → ProvisionDetails → Io W ProvisionedServiceSpec
  unfolding convert_details_to_map services can_provision bosh_request_error get
      get_instance_name_from_context provision_instance
  provision_steps instance_id details =
      convert_details_to_map details.raw_parameters details.as_map >>= λ params.
      services b >>= λ catalog.
      decided (can_provision b.equals catalog details.plan_id details.maintenance_info) >>= λ _.
      try b.broker.get_info (λ e. fail (bosh_request_error e)) pure >>= λ _.
      from_context get_instance_name_from_context (get "context" params) >>= λ instance_name.
      provision_instance instance_id details.plan_id params instance_name

  unfoldable pub provision : String → ProvisionDetails → Bool → Io W ProvisionedServiceSpec
  unfolding process_error provision_steps
  provision instance_id details async_allowed = processed (
      if not async_allowed
      then fail (failure_response "async-required")
      else provision_steps instance_id details)
