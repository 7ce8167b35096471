-- ===== src/MgmtApi/Upgrading.antt =====
-- On an upgrade that a trigger of instanceiterator/bosh_triggerer.go asks for through mgmtapi/api.go,
-- broker/upgrade.go and task/task.go.
use on_demand_service_broker.Prelude.{
  ◌≡◌, refl, false, Option, none, some, List, [], ◌∷◌, String, ◌==◌, ok, Io,
}
use on_demand_service_broker.Prelude.Dict.{Dict}
use on_demand_service_broker.Json.{end, field, text, object}
use on_demand_service_broker.Config.{Plan, find_plan_by_id}
use on_demand_service_broker.OperationData.{OperationData}
use on_demand_service_broker.Bosh.{BoshTask}
use on_demand_service_broker.Task
use on_demand_service_broker.Task.{
  Deployer, Deployed, assert_no_operations_in_progress, get_deployment_manifest,
}
use on_demand_service_broker.IteratorState.Data.{
  Instance, OperationState, in_progress, orphan_deployment, no_operation,
}
use on_demand_service_broker.Triggerers.{
  BrokerServices, LastOperation, process_instance, bosh_trigger_operation, extract_operation_from,
  translate_bosh_trigger_response, bosh_trigger_state,
}
use on_demand_service_broker.Broker.{deployment_name, process_error}
use on_demand_service_broker.Broker.Clients.{Clients}
use on_demand_service_broker.Broker.Uaa.{get_service_instance_client}
use on_demand_service_broker.Broker.Provision.{context_id_if, parsed}
use on_demand_service_broker.Broker.Upgrade.{
  UpdateRequest, deploy_upgrade, upgrade_plan, upgrade_instance, handle_update_error,
}
use on_demand_service_broker.MgmtApi.{patch_instance, upgrade_handler, upgrade_error_response}

-- The body of the request of ProcessInstance, decoded; what is not in it is empty.
abbrev pub body_of : Instance → UpdateRequest
body_of i = record {
  details = record {
    plan_id = i.plan_unique_id;
    raw_parameters = "";
    maintenance_info = none;
    previous_plan_id = "";
    previous_maintenance_info = none;
  };
  raw_context = parsed (field "space_guid" (text i.space_guid) end);
  as_map = ok end;
}

module _ {W : Type 0} (b : Clients W)
    (last_operation : String → OperationData → Io W LastOperation) where
  -- The broker's API as the triggerer reaches it.
  abbrev pub over_http : BrokerServices W
  unfolding patch_instance
  over_http = record {
    request = λ i operation_type. patch_instance b operation_type i.guid (some (body_of i));
    last_operation = last_operation;
  }

  module _ (d : Deployer W) (i : Instance) (plan : Plan) (context_id : String)
      (client : Option (Dict String)) (w w1 w2 : W) where
    -- The plan is in the catalog, and the calls before the deployer's succeed; the broker's deployer is `d`.
    pub record ReachesDeployer : Type 0 where
      pub deploys : b.deployer.upgrade ≡ Task.upgrade d
      pub names_plan : i.plan_unique_id == "" ≡ false
      pub has_plan : find_plan_by_id b.broker.service_offering i.plan_unique_id ≡ some plan
      pub has_context_id : context_id_if b plan.lifecycle_errands w ≡ (ok context_id, w1)
      pub has_client :
          get_service_instance_client b i.guid
            (field "context" (object (field "space_guid" (text i.space_guid) end)) end)
            w1
          ≡ (ok client, w2)

    -- What stands in the way of a deployment, with the state that the trigger answers with.
    pub data Obstacle : OperationState → W → Type 0 where
      busy :
          (t : BoshTask) (ts : List BoshTask) (v : W)
          → d.get_tasks_in_progress (deployment_name i.guid) w2 ≡ (ok (t ∷ ts), v)
          → Obstacle in_progress v
      gone :
          (manifest : String) (w3 v : W)
          → d.get_tasks_in_progress (deployment_name i.guid) w2 ≡ (ok [], w3)
          → d.get_deployment (deployment_name i.guid) w3 ≡ (ok (manifest, false), v)
          → Obstacle orphan_deployment v

    -- A trigger of an upgrade over the broker's API, where the calls before the deployer's succeed,
    -- answers without error with the state that the loops of the iterator retry when a task of the
    -- deployment is in progress, and with the state of an orphan when no task is and the deployment is
    -- not found; it makes no further call.
    pub trigger_answers_obstacle :
        (state : OperationState) (v : W)
        → ReachesDeployer
        → Obstacle state v
        → bosh_trigger_operation over_http "upgrade" i w
          ≡ (ok (record no_operation { state = state }), v)
    unfolding over_http bosh_trigger_operation process_instance upgrade_handler upgrade_instance
        upgrade_plan deploy_upgrade Task.upgrade assert_no_operations_in_progress
        get_deployment_manifest handle_update_error process_error upgrade_error_response
        extract_operation_from translate_bosh_trigger_response bosh_trigger_state
    trigger_answers_obstacle state v h (busy t ts _ e) =
        rw (h.names_plan, h.has_plan, h.has_context_id, h.has_client, h.deploys, e) refl
    trigger_answers_obstacle state v h (gone m w3 _ e e1) =
        rw (h.names_plan, h.has_plan, h.has_context_id, h.has_client, h.deploys, e, e1) refl
