-- ===== src/Task/Idle.antt =====
-- On the tasks of the director that the deployer of task/task.go starts.
use on_demand_service_broker.Prelude.{ℕ, ◌+◌, ◌≤◌, ◌≡◌, ◌⊎◌, Option, [], String, ok}
use on_demand_service_broker.Prelude.Dict.{Dict}
use on_demand_service_broker.Json.{Object}
use on_demand_service_broker.Config.{Plan}
use on_demand_service_broker.Task.{Deployer, create, upgrade, recreate, update}
use on_demand_service_broker.Task.Starting.{
  Counts, create_once, upgrade_once, recreate_once, update_once,
}

-- The operations of the deployer, with their arguments.
pub data Request : Type 0 where
  creation : (plan_id : String) → Object → (context : String) → Option (Dict String) → Request
  upgrading : Plan → Object → (context : String) → Option (Dict String) → Request
  recreation : (plan_id context : String) → Request
  updating :
      (plan_id : String)
      → Object
      → Option String
      → (context : String) → Dict String
      → Option (Dict String)
      → Request

-- The world that an operation leaves.
unfoldable pub carried_out : {W : Type 0} → Deployer W → String → Request → W → W
carried_out d name (creation plan_id params context client) w =
    (create d name plan_id params context client w).1
carried_out d name (upgrading plan params context client) w =
    (upgrade d name plan params context client w).1
carried_out d name (recreation plan_id context) w = (recreate d name plan_id context w).1
carried_out d name (updating plan_id params previous context secrets client) w =
    (update d name plan_id params previous context secrets client w).1

module _ {W : Type 0} (d : Deployer W) (count : W → ℕ) (c : Counts d count) where
  -- An operation of the deployer starts at most one task of the director, whatever the calls answer and
  -- however the world changes; it starts one only if the director answers, at its beginning, that
  -- no task of the deployment is in progress. This holds where the calls other than deploy and
  -- recreate start no task, and these two start one at most.
  pub carried_out_once :
      (name : String) (request : Request) (w : W)
      → let v = carried_out d name request w in
        (count v ≤ count w + 1)
        × ((count v ≡ count w) ⊎ ((d.get_tasks_in_progress name w).0 ≡ ok []))
  unfolding carried_out
  carried_out_once name (creation plan_id params context client) w =
      create_once d count c name plan_id params context client w
  carried_out_once name (upgrading plan params context client) w =
      upgrade_once d count c name plan params context client w
  carried_out_once name (recreation plan_id context) w =
      recreate_once d count c name plan_id context w
  carried_out_once name (updating plan_id params previous context secrets client) w =
      update_once d count c name plan_id params previous context secrets client w
