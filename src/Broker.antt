-- ===== src/Broker.antt =====
-- broker/broker.go and broker/errors.go: the broker's settings and the calls that its operations make,
-- and the errors that it shows to the platform. The context of a request only enters messages, and
-- is left out with them.
pub mod LastOperation
pub mod Deprovision
pub mod Clients
pub mod Catalog
pub mod Uaa
pub mod Provision
pub mod Upgrade
pub mod Update
pub mod Binding
pub mod Orphans
use Prim.Native.String.{◌++◌}
use on_demand_service_broker.Prelude.{
  ℕ, Bool, true, false, Option, none, some, List, String, ◌==◌, Error, other, displayable, extended,
  failure_response, typed, request_error, has_type, Io, if◌then◌else◌,
}
use on_demand_service_broker.Config.{ServiceOffering}
use on_demand_service_broker.Bosh.{BoshTask, BoshClient}

-- Fields of Broker, and the methods of its clients, with the secret manager, the UAA client and the
-- generator of unique identifiers.
pub record Broker (W : Type 0) : Type 0 where
  pub expose_operational_errors : Bool
  pub disable_bosh_configs : Bool
  pub service_offering : ServiceOffering
  pub bosh : BoshClient W
  pub get_info : Io W (Unit {0})
  -- whether the deployment is found; its manifest is left out
  pub get_deployment : String → Io W Bool
  pub get_tasks_in_progress : String → Io W (List BoshTask)
  pub delete_configs : String → Io W (Unit {0})
  pub delete_secrets_for_instance : String → Io W (Unit {0})
  pub delete_client : String → Io W (Unit {0})
  pub new_uuid : Io W String

unfoldable pub deployment_name : String → String
deployment_name instance_id = "service-instance_" ++ instance_id

-- ErrorForCFUser and ExtendedCFError of a displayable error, for the user and for the operator. A
-- failure response keeps its type when a message is appended to it.
unfoldable pub extended_cf_error : Error → Error → Error
extended_cf_error (failure_response key) for_operator = failure_response key
extended_cf_error for_user for_operator = extended for_user for_operator

unfoldable pub process_error : Bool → Error → Error
unfolding extended_cf_error
process_error expose (displayable for_user for_operator) =
    if expose then extended_cf_error for_user for_operator else for_user
process_error expose e = e

unfoldable pub generic_error : Error → Error
generic_error e = displayable (other "There was a problem completing your request") e

unfoldable pub bosh_request_error : Error → Error
bosh_request_error e =
    displayable (other "Currently unable to %s service instance, please try again later") e

-- `switch err.(type)`: a request error of the director, or another error.
unfoldable pub director_error : Error → Error
unfolding bosh_request_error generic_error
director_error (request_error text) = bosh_request_error (request_error text)
director_error e = generic_error e

-- Error, as far as it tells whether the message is empty.
abbrev no_message : Error → Bool
no_message (other message) = message == ""
no_message (typed name e) = no_message e
no_message _ = false

-- The message of NewGenericError for the user.
abbrev pub generic_for_user : Error
generic_for_user = other "There was a problem completing your request"

-- For a nil error the result is nil.
unfoldable pub adapter_to_api_error : Error → Error
adapter_to_api_error e =
    if has_type "BindingAlreadyExistsError" e
    then failure_response "binding-already-exists"
    else if has_type "BindingNotFoundError" e
    then failure_response "binding-missing"
    else if has_type "AppGuidNotProvidedError" e
    then failure_response "app-guid-not-provided"
    else if has_type "UnknownFailureError" e
    then (if no_message e then generic_for_user else e)
    else generic_for_user
