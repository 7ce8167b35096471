-- ===== src/Broker/Binding.antt =====
-- broker/bind.go, broker/unbind.go and broker/broker_helpers.go: the bindings of an instance, which the service
-- adapter creates and deletes.
pub mod Answers
use on_demand_service_broker.Prelude.{
  Bool, true, false, not, ◌&&◌, Option, none, some, List, [], String, other, wrapped, displayable,
  failure_response, Result, Io, ◌>>=◌, pure, fail, try, if◌then◌else◌,
}
use on_demand_service_broker.Prelude.Dict.{Dict}
use on_demand_service_broker.Json.{Value, text, object, Object, end, field, get}
use on_demand_service_broker.Config.{Plan, no_plan, find_plan_by_id, BindingDns}
use on_demand_service_broker.Broker.{
  deployment_name, process_error, generic_error, adapter_to_api_error,
}
use on_demand_service_broker.Broker.Clients.{Clients, Binding}
use on_demand_service_broker.Broker.Catalog.{plan_schema, validate_params}
use on_demand_service_broker.Broker.Provision.{RawJson, processed, convert_details_to_map}

pub record BindDetails : Type 0 where
  pub plan_id : String
  pub backup_agent : Bool
  pub raw_parameters : RawJson
  pub as_map : Result Object

pub record UnbindDetails : Type 0 where
  pub plan_id : String
  pub service_id : String

module _ {W : Type 0} where
  abbrev pub plan_or_displayable : Option Plan → Io W Plan
  plan_or_displayable none = fail (displayable (other "plan not found") (other "finding plan ID"))
  plan_or_displayable (some plan) = pure plan

  abbrev parameters_of : Option Value → Io W Object
  parameters_of (some (object params)) = pure params
  parameters_of value = fail (
      displayable (other "There was a problem completing your request")
        (other "converting parameters to map failed"))

-- The zero value where no plan is found.
abbrev pub dns_of : Option Plan → List BindingDns
dns_of none = no_plan.binding_with_dns
dns_of (some plan) = plan.binding_with_dns

abbrev pub unbind_params : UnbindDetails → Object
unbind_params details =
    field "plan_id" (text details.plan_id) (field "service_id" (text details.service_id) end)

module _ {W : Type 0} (b : Clients W) where
  abbrev pub manifest_and_vms : String → String × Bool → Io W (String × String)
  unfolding deployment_name generic_error
  manifest_and_vms instance_id (manifest, false) =
      fail (displayable (failure_response "instance-does-not-exist") (other "instance, not found"))
  manifest_and_vms instance_id (manifest, true) =
      try (b.vms (deployment_name instance_id))
        (λ e. fail (generic_error (wrapped "gathering info" e))) (λ vms. pure (manifest, vms))

  unfoldable pub get_deployment_info : String → Io W (String × String)
  unfolding deployment_name generic_error manifest_and_vms
  get_deployment_info instance_id =
      try (b.get_manifest (deployment_name instance_id))
        (λ e. fail (generic_error (wrapped "gathering deployment list" e)))
        (manifest_and_vms instance_id)

  -- The errors of Variables and of ResolveManifestSecrets are only logged.
  unfoldable pub secrets_of : String → String → Io W (Dict String)
  unfolding deployment_name
  secrets_of instance_id manifest =
      try (b.variables (deployment_name instance_id)) (λ _. pure []) pure >>= λ variables.
      try (b.resolve_manifest_secrets manifest variables) (λ _. pure []) pure

  unfoldable pub check_binding_schema : Option Plan → Object → Io W (Unit {0})
  unfolding plan_schema validate_params get
  check_binding_schema plan params =
      if b.enable_plan_schemas
      then (plan_or_displayable plan >>= λ found. plan_schema b found >>= λ schemas.
          parameters_of (get "parameters" params) >>= λ to_validate.
          try (validate_params b schemas.binding_create to_validate)
            (λ e. fail (failure_response "params-validation-failed")) pure)
      else pure tt

  unfoldable pub dns_addresses_of : String → Option Plan → Io W (Dict String)
  unfolding deployment_name generic_error
  dns_addresses_of instance_id plan =
      try (b.get_dns_addresses (deployment_name instance_id) (dns_of plan))
        (λ e. fail (generic_error (wrapped "failed to get required DNS info" e))) pure

  unfoldable pub bind_steps : String → String → BindDetails → Io W Binding
  unfolding get_deployment_info secrets_of convert_details_to_map check_binding_schema
      dns_addresses_of find_plan_by_id adapter_to_api_error generic_error
  bind_steps instance_id binding_id details =
      let plan = find_plan_by_id b.broker.service_offering details.plan_id in
      get_deployment_info instance_id >>= λ info. secrets_of instance_id info.0 >>= λ secrets.
      try (convert_details_to_map details.raw_parameters details.as_map)
        (λ e. fail (generic_error (wrapped "converting to map" e))) pure
      >>= λ params. check_binding_schema plan params >>= λ _.
          dns_addresses_of instance_id plan >>= λ dns_addresses.
          try (b.adapter.create_binding binding_id info.1 info.0 params secrets dns_addresses)
            (λ e. fail (adapter_to_api_error e)) pure

  unfoldable pub bind : String → String → BindDetails → Io W Binding
  unfolding bind_steps process_error
  bind instance_id binding_id details = processed b (
      if details.backup_agent && not b.support_backup_agent_binding
      then fail (failure_response "unsupported-binding-type")
      else bind_steps instance_id binding_id details)

  unfoldable pub unbind_steps : String → String → UnbindDetails → Io W (Unit {0})
  unfolding get_deployment_info secrets_of dns_addresses_of find_plan_by_id adapter_to_api_error
  unbind_steps instance_id binding_id details = get_deployment_info instance_id >>= λ info.
      secrets_of instance_id info.0 >>= λ secrets.
      plan_or_displayable (find_plan_by_id b.broker.service_offering details.plan_id) >>= λ plan.
      dns_addresses_of instance_id (some plan) >>= λ dns_addresses.
      try
        (b.adapter.delete_binding binding_id info.1 info.0 (unbind_params details) secrets
          dns_addresses)
        (λ e. fail (adapter_to_api_error e)) pure

  unfoldable pub unbind : String → String → UnbindDetails → Io W (Unit {0})
  unfolding unbind_steps process_error
  unbind instance_id binding_id details = processed b (unbind_steps instance_id binding_id details)
