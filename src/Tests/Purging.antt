-- ===== src/Tests/Purging.antt =====
-- deleter/deleter.go and purger/purger.go on a platform with one instance, whose deletion takes two polls.
use on_demand_service_broker.Prelude.{
  ℕ, zero, suc, ◌≤◌, ◌<◌, ◌≡◌, ◌↔◌, refl, some, List, [], ◌∷◌, String, Result, ok, err, typed,
  other, pure, arith,
}
use on_demand_service_broker.Deleter.{
  LastOperation, CfClient, poll_loop, delete_all_service_instances, delete_instances_and_deregister,
  deregister,
}
use on_demand_service_broker.Deleter.Waiting.{scripted, TurnsOut, Undecided, poll_loop-ok_iff}
use on_demand_service_broker.Deleter.Lowering.{Lowers}
use on_demand_service_broker.Deleter.Ends.{Settles, delete_all_service_instances_ends}
use on_demand_service_broker.Deleter.Purge.{NoneLeft, purge_leaves_nothing}

abbrev going_on : LastOperation
going_on = record { operation_type = "delete"; state = "in progress" }

abbrev gone : Result LastOperation
gone = err (typed "ResourceNotFoundError" (other "not found"))

poll_loop-ok_iff_example :
    (poll_loop scripted 2 "x" (ok going_on ∷ gone ∷ []) ≡ some (ok tt, []))
    ↔ TurnsOut 2 (ok going_on ∷ gone ∷ []) []
poll_loop-ok_iff_example = poll_loop-ok_iff 2 "x" (ok going_on ∷ gone ∷ []) []

-- The world is the number of polls that the deletion still takes.
abbrev ask : ℕ → Result LastOperation × ℕ
ask zero = (gone, zero)
ask (suc polls) = (ok going_on, polls)

abbrev listing : ℕ → Result (List String) × ℕ
listing zero = (ok [], zero)
listing (suc polls) = (ok ("x" ∷ []), suc polls)

abbrev platform : CfClient ℕ
platform = record {
  get_service_instances = λ _. listing;
  get_last_operation_for_instance = λ _. ask;
  get_bindings_for_instance = λ _. pure ("b" ∷ []);
  delete_binding = λ _. pure tt;
  get_service_keys_for_instance = λ _. pure [];
  delete_service_key = λ _. pure tt;
  delete_service_instance = λ _. pure tt;
  disable_service_access_for_all_plans = λ _. pure tt;
  get_service_offering_guid = λ _. pure "broker";
  deregister_broker = λ _. pure tt;
  sleep_offset = λ w. w;
  sleep_interval = λ w. w;
}

still : {A : Type 0} {r : Result A} → Lowers {W = ℕ} (λ w. w) (λ w. (r, w))
still = record { at = λ w. omega arith }

listing-Lowers : Lowers (λ w. w) listing
listing-Lowers = record { at = at_most }
  where
    at_most : (w : ℕ) → (listing w).1 ≤ w
    at_most zero = omega arith
    at_most (suc w) = omega arith

ask-Lowers : Lowers (λ w. w) ask
ask-Lowers = record { at = at_most }
  where
    at_most : (w : ℕ) → (ask w).1 ≤ w
    at_most zero = omega arith
    at_most (suc w) = omega arith

ask_lt : (w : ℕ) → Undecided (ask w).0 → (ask w).1 < w
ask_lt zero u = cc u.0
ask_lt (suc w) u = omega arith

settles : Settles platform (λ w. w)
settles = record {
  instances_le = λ _. listing-Lowers;
  bindings_le = λ _. still;
  binding_le = λ _. still;
  keys_le = λ _. still;
  key_le = λ _. still;
  deletion_le = λ _. still;
  last_le = λ _. ask-Lowers;
  last_lt = λ _. ask_lt;
  offset_le = λ w. omega arith;
  interval_le = λ w. omega arith;
}

delete_all_service_instances_ends_example :
    (r : Result (Unit {0}) × ℕ) × (delete_all_service_instances platform 3 "redis" 2 ≡ some r)
delete_all_service_instances_ends_example =
    delete_all_service_instances_ends platform (λ w. w) settles 3 "redis" 2 (omega arith)

purged : delete_instances_and_deregister platform 3 "redis" "broker" 2 ≡ some (ok tt, 0)
unfolding delete_instances_and_deregister
purged = refl

purge_leaves_nothing_example :
    ((platform.disable_service_access_for_all_plans "redis" 2).0 ≡ ok tt)
    × (emptied : ℕ) × NoneLeft platform 3 "redis" emptied
    × (deregister platform "broker" emptied ≡ (ok tt, 0))
purge_leaves_nothing_example = purge_leaves_nothing platform 3 "redis" "broker" 2 0 purged
