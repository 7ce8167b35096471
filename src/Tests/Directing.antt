-- ===== src/Tests/Directing.antt =====
-- boshdirector/get_tasks.go and boshdirector/links_api.go on a director with two tasks, one of another deployment.
use on_demand_service_broker.Prelude.{
  ℕ, suc, ◌-◌, ◌≡◌, refl, ◌↔◌, inr, true, Option, some, List, [], ◌∷◌, All, other, ok, err, pure,
  fail, arith,
}
use on_demand_service_broker.Prelude.Worlds.{Keeps-still}
use on_demand_service_broker.Config.{BindingDns}
use on_demand_service_broker.Bosh.{BoshTask}
use on_demand_service_broker.Director.{
  DirectorTask, Director, bosh_client, all_tasks_are_done, get_normalised_tasks_by_context,
}
use on_demand_service_broker.Director.Addresses.{get_dns_addresses}
use on_demand_service_broker.Director.Tasks.{
  AnswersSteadily, ElsewhereOrSucceeded, all_tasks_are_done-get_normalised_tasks_iff,
}
use on_demand_service_broker.Director.Links.{
  CountsConsumers, LeavesOpen, get_dns_addresses-LeavesOpen,
}
use on_demand_service_broker.Director.Errands.{
  with_error, NewestFails, get_task_stops_at_failed_errand,
}
use on_demand_service_broker.Lifecycle
use on_demand_service_broker.Lifecycle.Script.{done_task}
use on_demand_service_broker.Tests.Deleting.{deletion}

abbrev numbered : ℕ → DirectorTask
numbered id = record { task = record done_task { id = id }; deployment = "d" }

abbrev tasks : List DirectorTask
tasks = numbered 1 ∷ record (numbered 2) { deployment = "e" } ∷ []

-- An errand that has failed.
abbrev outputs : ℕ → Option ℕ
outputs id = some 1

-- The world is the number of link consumers.
abbrev director : Director ℕ
director = record {
  build = pure tt;
  current_tasks = λ _. pure [];
  find_tasks_by_context_id = λ _. pure tasks;
  find_task = λ id. pure (numbered id);
  result_output = λ id. pure (outputs id);
  list_deployments = pure ("d" ∷ []);
  find_deployment = λ _. pure tt;
  manifest = λ _. pure "name: d";
  list_configs = λ _. pure [];
  update_config = λ _ _ _. pure tt;
  delete_config = λ _ _. pure true;
  start_errand = λ _ _ _ _. pure 1;
  start_delete = λ _ _ _. pure 2;
  is_slug = λ _. true;
  link_provider_id = λ _ _ _. pure "provider";
  create_link_consumer = λ _ w. (ok "consumer", suc w);
  get_link_address = λ _ _ _. fail (other "no address");
  delete_link_consumer = λ _ w. (ok tt, w - 1);
}

steady : AnswersSteadily director outputs 0
steady = record {
  builds = refl;
  finds = λ id. (numbered id, refl, refl);
  gives_output = λ id. refl;
}

all_tasks_are_done-get_normalised_tasks_iff_example :
    (ts : List BoshTask) × (get_normalised_tasks_by_context director "d" "context" 0 ≡ (ok ts, 0))
    × ((all_tasks_are_done ts ≡ true) ↔ All (ElsewhereOrSucceeded outputs "d") tasks)
all_tasks_are_done-get_normalised_tasks_iff_example =
    all_tasks_are_done-get_normalised_tasks_iff director outputs 0 "d" "context" tasks steady refl

counts_consumers : CountsConsumers director (λ w. w)
counts_consumers = record {
  provider_keeps = λ _ _ _. Keeps-still _ _;
  consumer_opens = λ _ w. omega arith;
  address_keeps = λ _ _ _. Keeps-still _ _;
  deletion_succeeds = λ _ _. refl;
  deletion_closes = λ _ w. refl;
}

abbrev request : BindingDns
request = record {
  name = "leader";
  link_provider = "redis";
  instance_group = "redis";
  azs = [];
  status = "healthy";
}

get_dns_addresses-LeavesOpen_example :
    LeavesOpen director (λ w. w) 0 (get_dns_addresses director "d" (request ∷ []) 0)
get_dns_addresses-LeavesOpen_example =
    get_dns_addresses-LeavesOpen director (λ w. w) counts_consumers "d" (request ∷ []) 0

-- The consumer is left where its address cannot be read.
leaves_consumer : get_dns_addresses director "d" (request ∷ []) 0 ≡ (err (other "no address"), 1)
unfolding get_dns_addresses
leaves_consumer = refl

newest_fails :
    NewestFails director outputs 0 "d" deletion
      (numbered 1)
      (record (numbered 2) { deployment = "e" } ∷ [])
newest_fails = record { in_context = refl; found = refl; belongs = refl; done = refl; exits = refl }

get_task_stops_at_failed_errand_example :
    Lifecycle.get_task (bosh_client director) "d" deletion 0
    ≡ (ok (with_error (numbered 1).task), 0)
get_task_stops_at_failed_errand_example =
    get_task_stops_at_failed_errand director outputs 0 "d" deletion (numbered 1)
      (record (numbered 2) { deployment = "e" } ∷ []) steady (inr refl) newest_fails
