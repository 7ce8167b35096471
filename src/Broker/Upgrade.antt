-- ===== src/Broker/Upgrade.antt =====
-- broker/upgrade.go, broker/recreate.go, and handleUpdateError of broker/update.go.
pub mod Nameless
use on_demand_service_broker.Prelude.{
  ℕ, Bool, true, false, ◌||◌, ◌==◌, Option, none, some, List, [], ◌∷◌, String, Error, other,
  wrapped, displayable, failure_response, typed, has_type, Result, ok, err, panic, Io, ◌>>=◌, pure,
  fail, try, if◌then◌else◌,
}
use on_demand_service_broker.Prelude.Dict.{Dict}
use on_demand_service_broker.Json.{Value, object, Object, end, field}
use on_demand_service_broker.Config.{Plan, find_plan_by_id, post_deploy_errands, adapter_plan}
use on_demand_service_broker.OperationData.{
  OperationType, upgrade, recreate, OperationData, no_operation_data,
}
use on_demand_service_broker.Decider.{UpdateDetails}
use on_demand_service_broker.Task.{Deployed}
use on_demand_service_broker.Broker.{
  deployment_name, process_error, generic_error, bosh_request_error, adapter_to_api_error,
}
use on_demand_service_broker.Broker.Clients.{CatalogInfo, Clients}
use on_demand_service_broker.Broker.Uaa.{
  get_service_instance_client, update_service_instance_client,
}
use on_demand_service_broker.Broker.Provision.{
  RawJson, absent, invalid, parsed, processed, context_id_if,
}

-- domain.UpdateDetails: what the decider reads, the context, and the whole as a map.
pub record UpdateRequest : Type 0 where
  pub details : UpdateDetails CatalogInfo
  pub raw_context : RawJson
  pub as_map : Result Object

-- What Upgrade returns beside an error, and what Update makes of it.
pub record Started : Type 0 where
  pub operation_data : OperationData
  pub dashboard_url : String
  pub labels : Object

unfoldable pub handle_update_error : Error → Error
unfolding bosh_request_error generic_error adapter_to_api_error
handle_update_error e =
    if has_type "ServiceError" e
    then bosh_request_error (wrapped "error deploying instance" e)
    else if has_type "PendingChangesNotAppliedError" e
    then failure_response ""
    else if has_type "TaskInProgressError" e
    then typed "OperationInProgressError"
        (other "An operation is in progress for your service instance")
    else if has_type "PlanNotFoundError" e
        || (has_type "DeploymentNotFoundError" e || has_type "OperationAlreadyCompletedError" e)
    then e
    else if has_type "UnknownFailureError" e
    then adapter_to_api_error e
    else generic_error (wrapped "error deploying instance" e)

unfoldable pub recreate_error : Error → Error
unfolding adapter_to_api_error
recreate_error e =
    if has_type "UnknownFailureError" e
    then adapter_to_api_error e
    else if has_type "TaskInProgressError" e
    then typed "OperationInProgressError" e
    else e

module _ {W : Type 0} where
  -- convertToMap of the raw context: no text is encoded as `null`.
  abbrev pub context_or_fail : RawJson → Io W Object
  context_or_fail absent = pure end
  context_or_fail invalid = fail (other "invalid request context")
  context_or_fail (parsed context) = pure context

  abbrev pub known_plan : Option Plan → Io W Plan
  known_plan none = fail (other "plan not found")
  known_plan (some plan) = pure plan

module _ {W : Type 0} (b : Clients W) where
  -- GenerateDashboardUrl of an update or an upgrade; a command that is not implemented gives no URL.
  abbrev pub dashboard_url_of : String → Plan → Deployed → Io W String
  unfolding adapter_plan generic_error
  dashboard_url_of instance_id plan deployed =
      try
        (b.adapter.generate_dashboard_url instance_id
          (adapter_plan plan b.broker.service_offering.global_properties)
          deployed.deployed_manifest)
        (λ e. if has_type "NotImplementedError" e then pure "" else fail (generic_error e)) pure

  abbrev pub started : OperationType → Plan → String → Deployed → String → Started
  unfolding post_deploy_errands
  started op plan context_id deployed url = record {
    operation_data = record no_operation_data {
      bosh_context_id = context_id;
      bosh_task_id = deployed.task_id;
      operation_type = op;
      errands = post_deploy_errands plan;
    };
    dashboard_url = url;
    labels = deployed.deployed_labels;
  }

  -- What follows the deployment in an update and in an upgrade.
  unfoldable pub after_deploy :
      OperationType
      → String
      → Plan
      → String
      → Option (Dict String)
      → Object
      → Deployed
      → Io W Started
  unfolding dashboard_url_of update_service_instance_client generic_error started
  after_deploy op instance_id plan context_id client context deployed =
      dashboard_url_of instance_id plan deployed >>= λ url.
      try (update_service_instance_client b instance_id url client context)
        (λ e. fail (generic_error e)) (λ _. pure (started op plan context_id deployed url))

  -- From the client on: the request's parameters are the map that holds the context.
  unfoldable pub deploy_upgrade :
      String → Plan → String → Object → Option (Dict String) → Io W Started
  unfolding deployment_name handle_update_error after_deploy
  deploy_upgrade instance_id plan context_id raw_context client =
      try
        (b.deployer.upgrade (deployment_name instance_id) plan
          (field "context" (object raw_context) end) context_id client)
        (λ e. fail (handle_update_error e))
        (after_deploy upgrade instance_id plan context_id client raw_context)

  unfoldable pub upgrade_plan : String → UpdateRequest → Plan → Io W Started
  unfolding get_service_instance_client deploy_upgrade generic_error
  upgrade_plan instance_id request plan = context_id_if b plan.lifecycle_errands >>= λ context_id.
      context_or_fail request.raw_context >>= λ raw_context.
      try (get_service_instance_client b instance_id (field "context" (object raw_context) end))
        (λ e. fail (generic_error e)) (deploy_upgrade instance_id plan context_id raw_context)

  unfoldable pub upgrade_instance : String → UpdateRequest → Io W Started
  unfolding find_plan_by_id upgrade_plan process_error
  upgrade_instance instance_id request = processed b (
      if request.details.plan_id == ""
      then fail (other "no plan ID provided in upgrade request body")
      else (known_plan (find_plan_by_id b.broker.service_offering request.details.plan_id)
          >>= upgrade_plan instance_id request))

  unfoldable pub recreate_plan : String → UpdateRequest → Plan → Io W OperationData
  unfolding deployment_name recreate_error post_deploy_errands
  recreate_plan instance_id request plan = context_id_if b plan.lifecycle_errands >>= λ context_id.
      try (b.deployer.recreate (deployment_name instance_id) request.details.plan_id context_id)
        (λ e. fail (recreate_error e))
        (λ task_id. pure (record no_operation_data {
          bosh_context_id = context_id;
          bosh_task_id = task_id;
          operation_type = recreate;
          errands = post_deploy_errands plan;
        }))

  unfoldable pub recreate_instance : String → UpdateRequest → Io W OperationData
  unfolding find_plan_by_id recreate_plan process_error
  recreate_instance instance_id request = processed b (
      if request.details.plan_id == ""
      then fail (other "no plan ID provided in recreate request body")
      else (known_plan (find_plan_by_id b.broker.service_offering request.details.plan_id)
          >>= recreate_plan instance_id request))
