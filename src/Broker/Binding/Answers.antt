-- ===== src/Broker/Binding/Answers.antt =====
-- On what broker/unbind.go answers.
use on_demand_service_broker.Prelude.{
  ◌≡◌, ◌≢◌, refl, inl, inr, Bool, true, Bool-cases, some, List, [], String, Error, typed, Result,
  ok, err, panic, has_type, pure, fail, follow, try, next,
}
use on_demand_service_broker.Prelude.Dict.{Dict}
use on_demand_service_broker.Config.{Plan, find_plan_by_id}
use on_demand_service_broker.Broker.{
  deployment_name, process_error, adapter_to_api_error, no_message,
}
use on_demand_service_broker.Broker.Clients.{Clients}
use on_demand_service_broker.Broker.Binding.{
  UnbindDetails, unbind, unbind_steps, unbind_params, get_deployment_info, secrets_of,
  dns_addresses_of,
}

-- What is left of a list, or a map, that could not be read.
abbrev pub or_nothing : {A : Type 0} → Result (List A) → List A
or_nothing (ok xs) = xs
or_nothing (err e) = []
or_nothing panic = []

process_error-adapter_to_api_error :
    (expose : Bool) (e : Error)
    → process_error expose (adapter_to_api_error e) ≡ adapter_to_api_error e
unfolding process_error adapter_to_api_error
process_error-adapter_to_api_error expose e =
    elim (Bool-cases (has_type "BindingAlreadyExistsError" e)) [
      | inl a ↦ rw a refl
      | inr a ↦ elim (Bool-cases (has_type "BindingNotFoundError" e)) [
        | inl b ↦ rw (a, b) refl
        | inr b ↦ elim (Bool-cases (has_type "AppGuidNotProvidedError" e)) [
          | inl c ↦ rw (a, b, c) refl
          | inr c ↦ elim (Bool-cases (has_type "UnknownFailureError" e)) [
            | inr u ↦ rw (a, b, c, u) refl
            | inl u ↦ elim (Bool-cases (no_message e)) [
              | inl m ↦ rw (a, b, c, u, m) refl
              | inr m ↦ rw (a, b, c, u, m) (plain e u)
            ]
          ]
        ]
      ]
    ]
  where
    plain : (x : Error) → has_type "UnknownFailureError" x ≡ true → process_error expose x ≡ x
    plain (typed name y) h = refl
    plain x h = cc

abbrev pub answered : {W : Type 0} → Result (Unit {0}) × W → Result (Unit {0}) × W
unfolding adapter_to_api_error
answered (ok u, v) = (ok u, v)
answered (err e, v) = (err (adapter_to_api_error e), v)
answered (panic, v) = (panic, v)

module _ {W : Type 0} (b : Clients W) (instance_id binding_id : String) (details : UnbindDetails)
    (manifest vms : String) (plan : Plan) (variables : Result (List String))
    (secrets : Result (Dict String)) (addresses : Dict String) (w w1 w2 w3 w4 w5 : W) where
  -- The deployment, its VMs, the plan and the DNS addresses are found, and neither the variables nor the
  -- secrets make the broker panic.
  pub record ReachesAdapter : Type 0 where
    pub is_there : b.get_manifest (deployment_name instance_id) w ≡ (ok (manifest, true), w1)
    pub has_vms : b.vms (deployment_name instance_id) w1 ≡ (ok vms, w2)
    pub asks_variables : b.variables (deployment_name instance_id) w2 ≡ (variables, w3)
    pub variables_return : variables ≢ panic
    pub asks_secrets : b.resolve_manifest_secrets manifest (or_nothing variables) w3 ≡ (secrets, w4)
    pub secrets_return : secrets ≢ panic
    pub has_plan : find_plan_by_id b.broker.service_offering details.plan_id ≡ some plan
    pub has_addresses :
        b.get_dns_addresses (deployment_name instance_id) plan.binding_with_dns w4
        ≡ (ok addresses, w5)

  info_found : ReachesAdapter → get_deployment_info b instance_id w ≡ (ok (manifest, vms), w2)
  unfolding get_deployment_info
  info_found h = rw (h.is_there, h.has_vms) refl

  secrets_found :
      ReachesAdapter → secrets_of b instance_id manifest w2 ≡ (ok (or_nothing secrets), w4)
  unfolding secrets_of
  secrets_found h = rw h.asks_variables (by_variables variables h.variables_return h.asks_secrets)
    where
      resolved :
          (s : Result (Dict String))
          → s ≢ panic
          → follow (λ _. pure []) pure (s, w4) ≡ (ok (or_nothing s), w4)
      resolved (ok m) n = refl
      resolved (err e) n = refl
      resolved panic n = absurd (n refl)

      by_variables :
          (r : Result (List String))
          → r ≢ panic
          → b.resolve_manifest_secrets manifest (or_nothing r) w3 ≡ (secrets, w4)
          → next
              (λ names. try (b.resolve_manifest_secrets manifest names) (λ _. pure []) pure)
              (follow (λ _. pure []) pure (r, w3))
            ≡ (ok (or_nothing secrets), w4)
      by_variables (ok names) n e = rw e (resolved secrets h.secrets_return)
      by_variables (err x) n e = rw e (resolved secrets h.secrets_return)
      by_variables panic n e = absurd (n refl)

  -- An unbind that finds the deployment, its VMs, the plan and the DNS addresses calls the adapter, as
  -- its last call, and answers with the adapter's answer, an error of the adapter being turned into
  -- that of the API, whether or not operational errors are exposed. Where the variables or the
  -- secrets of the deployment cannot be read, the adapter is called without them.
  pub unbind_reports_adapter :
      ReachesAdapter
      → unbind b instance_id binding_id details w
        ≡ answered (
            b.adapter.delete_binding binding_id vms manifest
              (unbind_params details)
              (or_nothing secrets)
              addresses
              w5)
  unfolding unbind unbind_steps dns_addresses_of
  unbind_reports_adapter h =
      rw (info_found h, secrets_found h, h.has_plan, h.has_addresses)
        (by_adapter (
          b.adapter.delete_binding binding_id vms manifest (unbind_params details)
            (or_nothing secrets) addresses w5))
    where
      by_adapter :
          (r : Result (Unit {0}) × W)
          → follow
              (λ e. fail (process_error b.broker.expose_operational_errors e))
              pure
              (follow (λ e. fail (adapter_to_api_error e)) pure r)
            ≡ answered r
      by_adapter (ok u, v) = refl
      by_adapter (err e, v) =
          rw (process_error-adapter_to_api_error b.broker.expose_operational_errors e) refl
      by_adapter (panic, v) = refl
