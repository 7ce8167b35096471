-- ===== src/Tests/Tasks.antt =====
-- task/task.go on a director that starts every task; the world is the number of tasks started.
use on_demand_service_broker.Prelude.{
  ℕ, ◌+◌, ◌≡◌, ◌≤◌, refl, ◌⊎◌, ◌==◌, if◌then◌else◌, true, false, none, some, [], ◌∷◌, String,
  Result, other, typed, ok, err, pure, arith,
}
use on_demand_service_broker.Prelude.Worlds.{Keeps-still}
use on_demand_service_broker.Prelude.Answers.{Refuses}
use on_demand_service_broker.Json.{end}
use on_demand_service_broker.Config.{no_plan}
use on_demand_service_broker.Task.{Deployer, GeneratedManifest, config_map, create, update}
use on_demand_service_broker.Task.Manifests.{BoshManifest, AgreeBesidesUpdates}
use on_demand_service_broker.Task.Starting.{Counts}
use on_demand_service_broker.Task.Idle.{Request, upgrading, carried_out, carried_out_once}
use on_demand_service_broker.Task.Pending.{ChecksChanges, update_refuses_pending_changes}
use on_demand_service_broker.Task.Plain.{IsPlain, AnswersPlain, create-IsPlain}

-- The new manifest has no instance group.
abbrev old_manifest : BoshManifest
old_manifest = record {
  update = some "canaries: 1";
  instance_groups = record { group_update = none; group_rest = "instances: 2" } ∷ [];
  rest = "name: redis";
}

abbrev new_manifest : BoshManifest
new_manifest = record { update = none; instance_groups = []; rest = "name: redis" }

abbrev generated : GeneratedManifest
generated = record { manifest = "new"; odb_managed_secrets = []; configs = []; labels = end }

abbrev unmarshal : String → Result BoshManifest
unmarshal text = if text == "new" then ok new_manifest else ok old_manifest

abbrev pub deployer : Deployer ℕ
deployer = record {
  deploy = λ _ _ w. (ok w, w + 1);
  recreate_deployment = λ _ _ w. (ok w, w + 1);
  get_tasks_in_progress = λ _. pure [];
  get_deployment = λ _. pure ("old", true);
  get_configs = λ _. pure [];
  update_config = λ _ _ _. pure tt;
  generate_manifest = λ _. pure generated;
  generate_secret_paths = λ _ _ _. [];
  replace_odb_refs = λ manifest _. manifest;
  bulk_set = some (λ _. pure tt);
  unmarshal = unmarshal;
  disable_bosh_configs = false;
  skip_check_for_pending_changes = false;
}

counts : Counts deployer (λ w. w)
counts = record {
  deploy_one = λ _ _ w. omega arith;
  recreate_one = λ _ _ w. omega arith;
  tasks_none = λ _. Keeps-still _ _;
  deployment_none = λ _. Keeps-still _ _;
  configs_none = λ _. Keeps-still _ _;
  config_none = λ _ _ _. Keeps-still _ _;
  generate_none = λ _. Keeps-still _ _;
  bulk_none = λ _. Keeps-still _ _;
}

abbrev request : Request
request = upgrading no_plan end "" none

carried_out_once_example :
    let v = carried_out deployer "d" request 4 in
    (v ≤ 5) × ((v ≡ 4) ⊎ ((deployer.get_tasks_in_progress "d" 4).0 ≡ ok []))
carried_out_once_example = carried_out_once deployer (λ w. w) counts "d" request 4

abbrev Checks : Type 0
Checks =
    ChecksChanges deployer "d" "p" "p" "old" end "" [] none [] generated new_manifest old_manifest 4
      4 4 4 4

checks : Checks
unfolding config_map
checks = record {
  checked = refl;
  idle = refl;
  is_there = refl;
  has_configs = ([], refl, refl);
  regenerated = refl;
  new_read = refl;
  old_read = refl;
}

one_group_differs : ¬ AgreeBesidesUpdates new_manifest old_manifest
one_group_differs (e, f) = cc

update_refuses_pending_changes_example :
    update deployer "d" "p" end (some "p") "" [] none 4
    ≡ (err (typed "PendingChangesNotAppliedError" (other "There are pending changes")), 4)
update_refuses_pending_changes_example =
    update_refuses_pending_changes deployer "d" "p" "p" "old" end "" [] none [] generated
      new_manifest old_manifest 4 4 4 4 4 checks one_group_differs

plain : AnswersPlain deployer
plain = record { generate_plain = λ _ _. tt; bulk_plain = λ _ _. tt }

create-IsPlain_example : Refuses IsPlain (create deployer "d" "p" end "" none 4)
create-IsPlain_example = create-IsPlain deployer plain "d" "p" end "" none 4
