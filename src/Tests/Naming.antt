-- ===== src/Tests/Naming.antt =====
-- broker/orphan_deployments.go on three names.
use on_demand_service_broker.Prelude.{In, ◌≡◌, ◌↔◌, true, List, [], ◌∷◌, String}
use text.Mathlib.Text.{starts_with}
use on_demand_service_broker.Broker.{deployment_name}
use on_demand_service_broker.Broker.Orphans.{instance_prefix, instance_id, orphans_among}
use on_demand_service_broker.Broker.Orphans.Names.{
  IsOrphan, instance_id-deployment_name, orphans_among_iff,
}

instance_id-deployment_name_example :
    (instance_id (deployment_name "x") ≡ "x")
    × (starts_with "service-instance_y" instance_prefix ≡ true
        → deployment_name (instance_id "service-instance_y") ≡ "service-instance_y")
instance_id-deployment_name_example = instance_id-deployment_name "x" "service-instance_y"

abbrev deployed : List String
deployed = "service-instance_x" ∷ "service-instance_y" ∷ "cf" ∷ []

orphans_among_iff_example :
    In "service-instance_y" (orphans_among ("x" ∷ []) deployed)
    ↔ (In "service-instance_y" deployed × IsOrphan ("x" ∷ []) "service-instance_y")
orphans_among_iff_example = orphans_among_iff ("x" ∷ []) deployed "service-instance_y"
