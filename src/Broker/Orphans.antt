-- ===== src/Broker/Orphans.antt =====
-- broker/orphan_deployments.go, broker/instances.go and instanceID of broker/broker.go: the deployments of the
-- director that belong to no instance. Of an instance and of a deployment only the identifier is read.
pub mod Names
use Prim.Native.String.{slice, len}
use text.Mathlib.Text.{starts_with}
use on_demand_service_broker.Prelude.{
  Bool, true, false, ◌||◌, ◌==◌, List, [], ◌∷◌, String, Io, ◌>>=◌, pure, if◌then◌else◌,
}
use on_demand_service_broker.Broker.{process_error}
use on_demand_service_broker.Broker.Clients.{Clients}
use on_demand_service_broker.Broker.Provision.{processed}

abbrev pub instance_prefix : String
instance_prefix = "service-instance_"

-- strings.TrimPrefix
abbrev pub trim_prefix : String → String → String
trim_prefix s prefix = if starts_with s prefix then slice s (len prefix) (len s) else s

unfoldable pub instance_id : String → String
instance_id name = trim_prefix name instance_prefix

abbrev pub listed : List String → String → Bool
listed [] id = false
listed (x ∷ xs) id = x == id || listed xs id

unfoldable pub orphans_among : List String → List String → List String
orphans_among instance_ids [] = []
orphans_among instance_ids (name ∷ names) =
    let later = orphans_among instance_ids names in
    if starts_with name instance_prefix
    then (if listed instance_ids (instance_id name) then later else name ∷ later)
    else later

module _ {W : Type 0} (b : Clients W) where
  unfoldable pub instances : Io W (List String)
  unfolding process_error
  instances = processed b b.instances

  unfoldable pub orphan_deployments : Io W (List String)
  unfolding process_error instances orphans_among
  orphan_deployments = processed b (
      instances >>= λ instance_ids.
      b.get_deployments >>= λ deployments. pure (orphans_among instance_ids deployments))
