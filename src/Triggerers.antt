-- ===== src/Triggerers.antt =====
-- instanceiterator/bosh_triggerer.go, instanceiterator/cf_triggerer.go and
-- broker/services/response_converter.go: how answers of the broker and of Cloud Foundry become states
-- of the iterator's operations. The calls that get the answers are those of a client record.
pub mod States
use on_demand_service_broker.Prelude.{
  ℕ, nat_eq, Option, none, some, true, false, String, ◌==◌, Error, other, wrapped, Result, ok, err,
  panic, Io, ◌>>=◌, pure, fail, if◌then◌else◌,
}
use on_demand_service_broker.OperationData.{OperationData, no_operation_data}
use on_demand_service_broker.IteratorState.Data.{
  OperationState, accepted, succeeded, skipped, failed, in_progress, instance_not_found, pending,
  orphan_deployment, unset, Instance, TriggeredOperation, no_operation,
}

-- `BOSHOperationType`.
pub data BoshOperationType : Type 0 where
  type_not_found type_orphan type_accepted type_failed type_busy type_pending type_succeeded
        type_skipped :
      BoshOperationType

pub record BoshOperation : Type 0 where
  pub type_of : BoshOperationType
  pub data_of : OperationData
  pub description : String

-- An HTTP response, with the body as encoding/json decodes it: as operation data, and as an error
-- response, of which the description is kept. `none` stands for an error of the decoder.
pub record Response : Type 0 where
  pub status_code : ℕ
  pub body : String
  pub as_operation_data : Option OperationData
  pub as_description : Option String

abbrev pub operation_of_type : BoshOperationType → BoshOperation
operation_of_type t = record { type_of = t; data_of = no_operation_data; description = "" }

-- A decoded part of the body, or else an error.
abbrev pub decoded :
    {A : Type 0} → Option A → (A → Result BoshOperation) → Error → Result BoshOperation
decoded none f e = err e
decoded (some a) f e = f a

unfoldable pub extract_operation_from : Response → Result BoshOperation
extract_operation_from r =
    if nat_eq r.status_code 202
    then decoded r.as_operation_data
        (λ d. ok (record { type_of = type_accepted; data_of = d; description = "" }))
        (other "cannot parse upgrade response")
    else if nat_eq r.status_code 404
    then ok (operation_of_type type_not_found)
    else if nat_eq r.status_code 410
    then ok (operation_of_type type_orphan)
    else if nat_eq r.status_code 409
    then ok (operation_of_type type_busy)
    else if nat_eq r.status_code 204
    then ok (operation_of_type type_skipped)
    else if nat_eq r.status_code 500
    then decoded r.as_description
        (λ text. err (wrapped "unexpected status code, description" (other text)))
        (wrapped "unexpected status code, cannot parse upgrade response" (other r.body))
    else err (wrapped "unexpected status code, body" (other r.body))

-- `succeeded` is no case of the switch, so it leaves the empty state.
unfoldable pub bosh_trigger_state : BoshOperationType → OperationState
bosh_trigger_state type_accepted = accepted
bosh_trigger_state type_skipped = skipped
bosh_trigger_state type_failed = failed
bosh_trigger_state type_busy = in_progress
bosh_trigger_state type_not_found = instance_not_found
bosh_trigger_state type_pending = pending
bosh_trigger_state type_orphan = orphan_deployment
bosh_trigger_state type_succeeded = unset

unfoldable pub translate_bosh_trigger_response : BoshOperation → TriggeredOperation
unfolding bosh_trigger_state
translate_bosh_trigger_response o = record {
  state = bosh_trigger_state o.type_of;
  operation_data = o.data_of;
  description = o.description;
}

-- domain.LastOperation.
pub record LastOperation : Type 0 where
  pub state : String
  pub description : String

unfoldable pub bosh_check_state : String → Option OperationState
bosh_check_state state =
    if state == "failed"
    then some failed
    else if state == "succeeded"
    then some succeeded
    else if state == "in progress"
    then some accepted
    else none

abbrev pub checked_as :
    LastOperation → OperationData → Option OperationState → Result TriggeredOperation
checked_as last d none = err (wrapped "unknown state from last operation" (other last.state))
checked_as last d (some state) =
    ok (record { state = state; operation_data = d; description = last.description })

unfoldable pub translate_bosh_check_response :
    LastOperation → OperationData → Result TriggeredOperation
unfolding bosh_check_state
translate_bosh_check_response last d = checked_as last d (bosh_check_state last.state)

-- BrokerServices, as far as BOSHTriggerer uses it; `request` sends the request of ProcessInstance.
pub record BrokerServices (W : Type 0) : Type 0 where
  pub request : Instance → (operation_type : String) → Io W Response
  pub last_operation : String → OperationData → Io W LastOperation

-- The error that a triggerer returns around that of a call.
abbrev pub renamed : {W A : Type 0} → String → Result A × W → Result A × W
renamed text (err e, w) = (err (wrapped text e), w)
renamed text (ok a, w) = (ok a, w)
renamed text (panic, w) = (panic, w)

abbrev pub returned : {W A : Type 0} → Result A → Io W A
returned x w = (x, w)

module _ {W : Type 0} (services : BrokerServices W) where
  -- ProcessInstance of broker/services/services.go.
  unfoldable pub process_instance : Instance → String → Io W BoshOperation
  unfolding extract_operation_from
  process_instance i operation_type =
      services.request i operation_type >>= λ r. returned (extract_operation_from r)

  unfoldable pub bosh_trigger_operation : String → Instance → Io W TriggeredOperation
  unfolding process_instance translate_bosh_trigger_response
  bosh_trigger_operation operation_type i =
      (λ w. renamed "operation failed for service instance" (process_instance i operation_type w))
      >>= λ o. pure (translate_bosh_trigger_response o)

  unfoldable pub bosh_check : String → OperationData → Io W TriggeredOperation
  unfolding translate_bosh_check_response
  bosh_check guid d =
      (λ w. renamed "error getting last operation" (services.last_operation guid d w)) >>= λ last.
      returned (translate_bosh_check_response last d)

-- `switch` with no default: another state leaves the empty one.
unfoldable pub cf_check_state : String → OperationState
cf_check_state state =
    if state == "succeeded"
    then succeeded
    else if state == "in progress"
    then accepted
    else if state == "failed"
    then failed
    else unset

unfoldable pub translate_cf_check_response : String → TriggeredOperation
unfolding cf_check_state
translate_cf_check_response state = record no_operation { state = cf_check_state state }

unfoldable pub translate_cf_trigger_response : String → TriggeredOperation
unfolding translate_cf_check_response
translate_cf_trigger_response state =
    if state == "succeeded"
    then record no_operation { state = skipped }
    else translate_cf_check_response state

-- CFClient, as far as CFTriggerer uses it: the maintenance info of the plan of an instance, an
-- upgrade and a look at the last operation, both of which give the state of the last operation.
pub record CfClient (W Mi : Type 0) : Type 0 where
  pub plan_maintenance_info : String → Io W Mi
  pub upgrade_service_instance : String → Mi → Io W String
  pub last_operation_for_instance : String → Io W String

module _ {W Mi : Type 0} (client : CfClient W Mi) where
  unfoldable pub cf_trigger_operation : Instance → Io W TriggeredOperation
  unfolding translate_cf_trigger_response
  cf_trigger_operation i =
      (λ w.
        renamed "failed to trigger operation for instance" (client.plan_maintenance_info i.guid w))
      >>= λ info.
          (λ w.
            renamed "failed to trigger operation for instance"
              (client.upgrade_service_instance i.guid info w))
          >>= λ state. pure (translate_cf_trigger_response state)

  unfoldable pub cf_check : String → OperationData → Io W TriggeredOperation
  unfolding translate_cf_check_response
  cf_check guid d =
      (λ w.
        renamed "failed to check operation for instance"
          (client.last_operation_for_instance guid w))
      >>= λ state. pure (translate_cf_check_response state)
