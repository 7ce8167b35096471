-- ===== src/Tests/Unbinding.antt =====
-- broker/unbind.go where the variables of the deployment cannot be read.
use on_demand_service_broker.Prelude.{
  ℕ, ◌≡◌, refl, true, List, [], String, Result, other, ok, err, pure, fail,
}
use on_demand_service_broker.Config.{find_plan_by_id}
use on_demand_service_broker.Broker.Clients.{Clients}
use on_demand_service_broker.Broker.Binding.{UnbindDetails, unbind, unbind_params}
use on_demand_service_broker.Broker.Binding.Answers.{
  ReachesAdapter, answered, unbind_reports_adapter,
}
use on_demand_service_broker.Tests.Provisioning.{clients, small}

abbrev bound : Clients ℕ
bound = record clients {
  get_manifest = λ _. pure ("name: x", true);
  variables = λ _. fail (other "no variables");
}

abbrev details : UnbindDetails
details = record { plan_id = "small"; service_id = "service" }

abbrev unread : Result (List String)
unread = err (other "no variables")

reaches : ReachesAdapter bound "x" "b" details "name: x" "" small unread (ok []) [] 0 0 0 0 0 0
unfolding find_plan_by_id
reaches = record {
  is_there = refl;
  has_vms = refl;
  asks_variables = refl;
  variables_return = λ e. cc;
  asks_secrets = refl;
  secrets_return = λ e. cc;
  has_plan = refl;
  has_addresses = refl;
}

unbind_reports_adapter_example :
    unbind bound "x" "b" details 0
    ≡ answered (bound.adapter.delete_binding "b" "" "name: x" (unbind_params details) [] [] 0)
unbind_reports_adapter_example =
    unbind_reports_adapter bound "x" "b" details "name: x" "" small unread (ok []) [] 0 0 0 0 0 0
      reaches
