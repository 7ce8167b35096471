-- ===== src/MgmtApi.antt =====
-- mgmtapi/api.go and mgmtapi/metrics.go: the API by which the errands of the operator reach the broker. A handler gives the
-- status and the body of its response, the body before it is encoded as JSON; the request comes
-- decoded, `none` for a body that cannot be decoded. Lines for the log are left out.
pub mod Upgrading
pub mod Metrics
pub mod Usage
pub mod Reported
use Prim.Native.String.{◌++◌}
use on_demand_service_broker.Prelude.{
  ℕ, ◌+◌, ◌*◌, nat_eq, ◌==◌, Option, none, some, List, [], ◌∷◌, String, Error, has_type, Result, ok,
  err, panic, Io, if◌then◌else◌,
}
use on_demand_service_broker.Prelude.Dict.{Dict, lookup, insert}
use on_demand_service_broker.Prelude.Int.{ℤ, pos, sub_ℕ}
use mathlib.Core.List
use on_demand_service_broker.Config.{ResourceQuota, Plan, ServiceOffering, find_by_id}
use on_demand_service_broker.OperationData.{OperationData}
use on_demand_service_broker.Quotas.{CfServicePlan, or_zero}
use on_demand_service_broker.Triggerers.{Response}
use on_demand_service_broker.Broker.Clients.{Clients}
use on_demand_service_broker.Broker.Upgrade.{
  UpdateRequest, Started, upgrade_instance, recreate_instance,
}
use on_demand_service_broker.Broker.Orphans.{orphan_deployments}

abbrev with_status : ℕ → Response
with_status code = record {
  status_code = code;
  body = "";
  as_operation_data = none;
  as_description = none;
}

abbrev with_data : OperationData → Response
with_data d = record (with_status 202) { as_operation_data = some d }

-- The description, which is the message of the error, is not told apart further.
abbrev with_description : ℕ → Response
with_description code = record (with_status code) { as_description = some "" }

unfoldable pub upgrade_error_response : Error → Response
upgrade_error_response e =
    if has_type "ResourceNotFoundError" e
    then with_status 404
    else if has_type "DeploymentNotFoundError" e
    then with_status 410
    else if has_type "OperationInProgressError" e
    then with_status 409
    else if has_type "OperationAlreadyCompletedError" e
    then with_status 204
    else with_description 500

unfoldable pub recreate_error_response : Error → Response
recreate_error_response e =
    if has_type "ResourceNotFoundError" e
    then with_status 404
    else if has_type "DeploymentNotFoundError" e
    then with_status 410
    else if has_type "OperationInProgressError" e
    then with_status 409
    else with_description 500

-- `switch err.(type)`; a handler always answers, unless it panics.
module _ {W A : Type 0} where
  abbrev pub responded : (Error → Response) → (A → Response) → Result A × W → Result Response × W
  responded h f (ok a, w) = (ok (f a), w)
  responded h f (err e, w) = (ok (h e), w)
  responded h f (panic, w) = (panic, w)

module _ {W : Type 0} (b : Clients W) where
  unfoldable pub upgrade_handler : String → Option UpdateRequest → Io W Response
  unfolding upgrade_instance upgrade_error_response
  upgrade_handler instance_id none w = (ok (with_description 422), w)
  upgrade_handler instance_id (some request) w =
      responded upgrade_error_response (λ (s : Started). with_data s.operation_data)
        (upgrade_instance b instance_id request w)

  unfoldable pub recreate_handler : String → Option UpdateRequest → Io W Response
  unfolding recreate_instance recreate_error_response
  recreate_handler instance_id none w = (ok (with_description 422), w)
  recreate_handler instance_id (some request) w =
      responded recreate_error_response with_data (recreate_instance b instance_id request w)

  -- The routes of a PATCH on an instance, by the query; the first that fits is taken.
  unfoldable pub patch_instance :
      (operation_type instance_id : String) → Option UpdateRequest → Io W Response
  unfolding recreate_handler upgrade_handler
  patch_instance operation_type instance_id request =
      if operation_type == "recreate"
      then recreate_handler instance_id request
      else if operation_type == "upgrade"
      then upgrade_handler instance_id request
      else (λ w. (ok (with_status 400), w))

-- A status alone, or a body with the status 200.
pub data Reply (A : Type 0) : Type 0 where
  status : ℕ → Reply A
  json : A → Reply A

module _ {W A : Type 0} where
  abbrev replied : Result A × W → Result (Reply A) × W
  replied (ok a, w) = (ok (json a), w)
  replied (err e, w) = (ok (status 500), w)
  replied (panic, w) = (panic, w)

module _ {W : Type 0} (b : Clients W) where
  -- listOrphanDeployments, and listAllInstances, whose filter goes to the lister.
  unfoldable pub list_orphan_deployments : Io W (Reply (List String))
  unfolding orphan_deployments
  list_orphan_deployments w = replied (orphan_deployments b w)
