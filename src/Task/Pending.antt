-- ===== src/Task/Pending.antt =====
-- On the updates that task/task.go refuses.
use on_demand_service_broker.Prelude.{
  ◌≡◌, refl, Bool, true, false, Option, none, some, List, [], String, other, typed, ok, err,
}
use on_demand_service_broker.Prelude.Dict.{Dict}
use on_demand_service_broker.Json.{Object, end}
use on_demand_service_broker.Task.Manifests.{
  BoshManifest, manifests_are_the_same, deep_equal, ignore_update_block, AgreeBesidesUpdates,
  deep_equal-ignore_update_block_iff,
}
use on_demand_service_broker.Task.{
  Deployer, GeneratedManifest, BoshConfig, properties, config_map, assert_no_operations_in_progress,
  get_deployment_manifest, get_old_configs, get_config_map, check_unless_skipped,
  check_for_pending_changes, update,
}
use on_demand_service_broker.Prelude.{Bool-cases, inl, inr}

module _ {W : Type 0} (d : Deployer W) (name plan_id previous old : String) (params : Object)
    (context : String) (secrets : Dict String) (client : Option (Dict String))
    (old_configs : Dict String) (generated : GeneratedManifest)
    (new_parsed old_parsed : BoshManifest) (w w1 w2 w3 w4 : W) where
  -- No configs are read where they are disabled; else they are read, and kept by their type.
  abbrev pub ReadsConfigs : Bool → Type 0
  ReadsConfigs true = (old_configs ≡ []) × (w3 ≡ w2)
  ReadsConfigs false =
      (configs : List BoshConfig) × (d.get_configs name w2 ≡ (ok configs, w3))
      × (old_configs ≡ config_map [] configs)

  -- The changes are checked, no task of the deployment is in progress, it is found, its configs are
  -- read unless they are disabled, and the manifest that the adapter generates for the previous plan
  -- can be read, as can the old one.
  pub record ChecksChanges : Type 0 where
    pub checked : d.skip_check_for_pending_changes ≡ false
    pub idle : d.get_tasks_in_progress name w ≡ (ok [], w1)
    pub is_there : d.get_deployment name w1 ≡ (ok (old, true), w2)
    pub has_configs : ReadsConfigs d.disable_bosh_configs
    pub regenerated :
        d.generate_manifest
          (record (properties name previous end none) {
            old_manifest = old;
            previous_plan_id = some previous;
            secrets_map = secrets;
            previous_configs = old_configs;
          })
          w3
        ≡ (ok generated, w4)
    pub new_read : d.unmarshal generated.manifest ≡ ok new_parsed
    pub old_read : d.unmarshal old ≡ ok old_parsed

  get_old_configs_lem :
      (disabled : Bool)
      → d.disable_bosh_configs ≡ disabled
      → ReadsConfigs disabled
      → get_old_configs d name w2 ≡ (ok old_configs, w3)
  unfolding get_old_configs get_config_map
  get_old_configs_lem true e (none_read, still) = rw (e, none_read, still) refl
  get_old_configs_lem false e (configs, read, kept) = rw (e, read, kept) refl

  -- An update from a known plan, with the check for pending changes not skipped, is refused where the
  -- manifest that the adapter generates for the previous plan differs from the old one in more than
  -- update blocks; the refusal is the last thing that it does. The deployment is found, none of its
  -- tasks is in progress, its configs are read unless they are disabled, and both manifests can be
  -- read.
  pub update_refuses_pending_changes :
      ChecksChanges
      → ¬ AgreeBesidesUpdates new_parsed old_parsed
      → update d name plan_id params (some previous) context secrets client w
        ≡ (err (typed "PendingChangesNotAppliedError" (other "There are pending changes")), w4)
  unfolding update assert_no_operations_in_progress get_deployment_manifest check_unless_skipped
      check_for_pending_changes manifests_are_the_same
  update_refuses_pending_changes h differ =
      let configs_read = get_old_configs_lem d.disable_bosh_configs refl h.has_configs in
      elim (Bool-cases
        (deep_equal (ignore_update_block new_parsed) (ignore_update_block old_parsed))) [
          | inl e ↦ absurd (differ ((deep_equal-ignore_update_block_iff new_parsed old_parsed).0 e))
          | inr e ↦
              rw
                (
                  h.idle, h.is_there, configs_read, h.checked, h.regenerated, h.new_read,
                  h.old_read, e,
                )
                refl
        ]
