-- ===== src/Deleter.antt =====
-- deleter/deleter.go and purger/purger.go, with the registrar's Deregister of registrar/deregistrar.go: the deletion of
-- all instances of an offering. The Cloud Foundry client is a record of calls; `none` means that the
-- fuel of the loop that waits for a deletion ran out. An instance, a binding and a key are their GUIDs.
pub mod Waiting
pub mod Purge
pub mod Lowering
pub mod Ends
use on_demand_service_broker.Prelude.{
  ℕ, zero, suc, Bool, true, false, not, ◌||◌, ◌==◌, Option, none, some, List, [], ◌∷◌, String,
  Error, other, wrapped, has_type, Result, ok, err, panic, Io, ◌>>=◌, pure, fail, try,
  if◌then◌else◌,
}

-- cf.LastOperation
pub record LastOperation : Type 0 where
  pub operation_type : String
  pub state : String

unfoldable pub is_delete : LastOperation → Bool
is_delete o = o.operation_type == "delete"

unfoldable pub operation_failed : LastOperation → Bool
operation_failed o = o.state == "failed"

unfoldable pub is_fatal : Error → Bool
is_fatal e =
    has_type "UnauthorizedError" e
    || (has_type "ForbiddenError" e || has_type "InvalidResponseError" e)

-- The interfaces CloudFoundryClient of the packages, and the sleeper.
pub record CfClient (W : Type 0) : Type 0 where
  pub get_service_instances : (offering_id : String) → Io W (List String)
  pub get_last_operation_for_instance : String → Io W LastOperation
  pub get_bindings_for_instance : String → Io W (List String)
  pub delete_binding : String → Io W (Unit {0})
  pub get_service_keys_for_instance : String → Io W (List String)
  pub delete_service_key : String → Io W (Unit {0})
  pub delete_service_instance : String → Io W (Unit {0})
  pub disable_service_access_for_all_plans : (offering_id : String) → Io W (Unit {0})
  -- the empty text where no broker has the name
  pub get_service_offering_guid : (broker_name : String) → Io W String
  pub deregister_broker : (guid : String) → Io W (Unit {0})
  -- Sleep, of the initial offset and of the interval
  pub sleep_offset : W → W
  pub sleep_interval : W → W

-- A computation whose loop may run out of fuel.
abbrev pub Loop : Type 0 → Type 0 → Type 0
Loop W A = W → Option (Result A × W)

module _ {W A B : Type 0} where
  abbrev pub then_loop : (A → Loop W B) → Result A × W → Option (Result B × W)
  then_loop f (ok a, w) = f a w
  then_loop f (err e, w) = some (err e, w)
  then_loop f (panic, w) = some (panic, w)

  abbrev pub after_loop : (A → Loop W B) → Option (Result A × W) → Option (Result B × W)
  after_loop f none = none
  after_loop f (some r) = then_loop f r

module _ {W : Type 0} (c : CfClient W) where
  abbrev pub delete_each : (String → Io W (Unit {0})) → List String → Io W (Unit {0})
  delete_each delete [] = pure tt
  delete_each delete (guid ∷ guids) = delete guid >>= λ _. delete_each delete guids

  -- `case cf.ResourceNotFoundError: return nil`
  abbrev pub unless_not_found : Error → Io W (Unit {0})
  unless_not_found e = if has_type "ResourceNotFoundError" e then pure tt else fail e

  unfoldable pub delete_bindings : String → Io W (Unit {0})
  delete_bindings guid =
      try (c.get_bindings_for_instance guid) unless_not_found (delete_each c.delete_binding)

  unfoldable pub delete_service_keys : String → Io W (Unit {0})
  delete_service_keys guid =
      try (c.get_service_keys_for_instance guid) unless_not_found (delete_each c.delete_service_key)

  unfoldable pub delete_in_progress : String → Io W Bool
  unfolding is_delete
  delete_in_progress guid = c.get_last_operation_for_instance guid >>= λ last. pure (is_delete last)

  -- The error of the question is only logged.
  unfoldable pub request_deletion : String → Io W (Unit {0})
  unfolding delete_in_progress
  request_deletion guid = try (delete_in_progress guid) (λ _. pure false) pure >>= λ in_progress.
      if in_progress then pure tt else c.delete_service_instance guid

  -- A round of the loop, from what the platform answers; `rest` is the rounds that follow.
  abbrev pub read_deletion :
      Loop W (Unit {0}) → Result LastOperation × W → Option (Result (Unit {0}) × W)
  read_deletion rest (ok last, w) =
      if not (is_delete last)
      then some (err (other "failed to delete service instance: unexpected operation type"), w)
      else if operation_failed last
      then some (err (other "failed to delete service instance: delete operation failed"), w)
      else rest w
  read_deletion rest (err e, w) =
      if has_type "ResourceNotFoundError" e
      then some (ok tt, w)
      else if is_fatal e
      then some (err (wrapped "failed to delete service instance" e), w)
      else rest w
  read_deletion rest (panic, w) = some (panic, w)

  unfoldable pub poll_loop : ℕ → String → Loop W (Unit {0})
  unfolding is_delete operation_failed is_fatal
  poll_loop zero guid w = none
  poll_loop (suc fuel) guid w =
      read_deletion (λ v. poll_loop fuel guid v)
        (c.get_last_operation_for_instance guid (c.sleep_interval w))

  unfoldable pub poll_instance_delete_status : ℕ → String → Loop W (Unit {0})
  unfolding poll_loop
  poll_instance_delete_status fuel guid w = poll_loop fuel guid (c.sleep_offset w)

  -- What is done for an instance before the wait.
  unfoldable pub start_deletion : String → Io W (Unit {0})
  unfolding delete_bindings delete_service_keys request_deletion
  start_deletion guid =
      delete_bindings guid >>= λ _. delete_service_keys guid >>= λ _. request_deletion guid

  unfoldable pub delete_instances : ℕ → List String → Loop W (Unit {0})
  unfolding start_deletion poll_instance_delete_status
  delete_instances fuel [] w = some (ok tt, w)
  delete_instances fuel (guid ∷ guids) w =
      after_loop (λ _. delete_instances fuel guids)
        (then_loop (λ _. poll_instance_delete_status fuel guid) (start_deletion guid w))

  abbrev pub none_left : List String → Io W (Unit {0})
  none_left [] = pure tt
  none_left (guid ∷ guids) = fail (other "expected 0 instances for service offering")

  abbrev pub delete_listed : ℕ → String → List String → Loop W (Unit {0})
  delete_listed fuel offering_id [] w = some (ok tt, w)
  delete_listed fuel offering_id (guid ∷ guids) w =
      after_loop (λ _ v. some ((c.get_service_instances offering_id >>= none_left) v))
        (delete_instances fuel (guid ∷ guids) w)

  unfoldable pub delete_all_service_instances : ℕ → String → Loop W (Unit {0})
  unfolding delete_instances
  delete_all_service_instances fuel offering_id w =
      then_loop (delete_listed fuel offering_id) (c.get_service_instances offering_id w)

  abbrev deregister_guid : String → Io W (Unit {0})
  deregister_guid guid =
      if guid == ""
      then pure tt
      else try (c.deregister_broker guid) (λ e. fail (wrapped "Failed to deregister broker" e)) pure

  unfoldable pub deregister : String → Io W (Unit {0})
  deregister broker_name = c.get_service_offering_guid broker_name >>= deregister_guid

  -- The message of an error of each of the three steps.
  abbrev pub purger_failed : Result (Unit {0}) × W → Result (Unit {0}) × W
  purger_failed (ok u, w) = (ok u, w)
  purger_failed (err e, w) = (err (wrapped "Purger Failed" e), w)
  purger_failed (panic, w) = (panic, w)

  abbrev pub purger_failed_loop : Option (Result (Unit {0}) × W) → Option (Result (Unit {0}) × W)
  purger_failed_loop none = none
  purger_failed_loop (some r) = some (purger_failed r)

  unfoldable pub delete_instances_and_deregister : ℕ → String → String → Loop W (Unit {0})
  unfolding delete_all_service_instances deregister
  delete_instances_and_deregister fuel offering_id broker_name w =
      then_loop
        (λ _ w1.
          after_loop (λ _ w2. some (purger_failed (deregister broker_name w2)))
            (purger_failed_loop (delete_all_service_instances fuel offering_id w1)))
        (purger_failed (c.disable_service_access_for_all_plans offering_id w))
