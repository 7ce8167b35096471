-- ===== src/Task/Starting.antt =====
-- The tasks of the director that each operation of task/task.go starts.
use on_demand_service_broker.Prelude.{
  ℕ, ◌+◌, ◌≤◌, ◌≡◌, refl, ◌∙◌, ◌⊎◌, inl, inr, Bool, true, false, Option, none, some, List, [], ◌∷◌,
  String, Result, ok, err, panic, Io, next, ◌>>=◌, typed, wrapped, sym, follow, fail, arith, ltb,
  length, ◌&&◌,
}
use on_demand_service_broker.Prelude.Dict.{Dict}
use on_demand_service_broker.Prelude.Worlds.{
  next_leaves, follow_leaves, Keeps, Keeps-still, Keeps-next, Keeps-try, Keeps-if,
}
use on_demand_service_broker.Json.{Object}
use on_demand_service_broker.Config.{Plan}
use on_demand_service_broker.Bosh.{BoshTask}
use on_demand_service_broker.Task.Manifests.{manifests_are_the_same}
use on_demand_service_broker.Task.{
  Deployer, ManifestSecret, GeneratedManifest, GenerateManifestProperties,
  assert_no_operations_in_progress, get_deployment_manifest, get_old_configs, get_config_map,
  check_unless_skipped, check_for_pending_changes, store_secrets, update_configs, store_configs,
  do_deploy, create, upgrade, recreate, update, found_or_fail, idle_or_fail, unless_pending,
}

-- A bulk setter may be missing.
abbrev BulkKeeps : {W : Type 0} → (W → ℕ) → Option (List ManifestSecret → Io W (Unit {0})) → Type 0
BulkKeeps count none = Unit
BulkKeeps count (some bulk_set) = (secrets : List ManifestSecret) → Keeps count (bulk_set secrets)

-- `count` is the number of tasks that the director has started for the deployer: `deploy` and
-- `recreate_deployment` start one at most, the other calls none.
pub record Counts {W : Type 0} (d : Deployer W) (count : W → ℕ) : Type 0 where
  pub deploy_one : (m c : String) (w : W) → count (d.deploy m c w).1 ≤ count w + 1
  pub recreate_one : (n c : String) (w : W) → count (d.recreate_deployment n c w).1 ≤ count w + 1
  pub tasks_none : (n : String) → Keeps count (d.get_tasks_in_progress n)
  pub deployment_none : (n : String) → Keeps count (d.get_deployment n)
  pub configs_none : (n : String) → Keeps count (d.get_configs n)
  pub config_none : (t n c : String) → Keeps count (d.update_config t n c)
  pub generate_none : (p : GenerateManifestProperties) → Keeps count (d.generate_manifest p)
  pub bulk_none : BulkKeeps count d.bulk_set

module _ {W : Type 0} (d : Deployer W) (count : W → ℕ) (c : Counts d count) where
  abbrev At : ℕ → W → Type 0
  At n w = count w ≡ n

  abbrev Below : ℕ → W → Type 0
  Below n w = count w ≤ n + 1

  at_most : {n : ℕ} (w : W) → At n w → Below n w
  at_most w h = omega arith

  still : {A : Type 0} {r : Result A} → Keeps {W = W} count (λ w. (r, w))
  still {A} {r} = Keeps-still count r

  store_secrets_none :
      (name : String) (g : GeneratedManifest) → Keeps count (store_secrets d d.bulk_set name g)
  store_secrets_none name g = by_setter d.bulk_set c.bulk_none
    where
      by_setter :
          (b : Option (List ManifestSecret → Io W (Unit {0})))
          → BulkKeeps count b
          → Keeps count (store_secrets d b name g)
      by_setter none h = still
      by_setter (some bulk_set) h = Keeps-next (h _) (λ _. still)

  update_configs_none :
      (name : String) (configs : Dict String) → Keeps count (update_configs d name configs)
  unfolding update_configs
  update_configs_none name [] = still
  update_configs_none name ((t, content) ∷ configs) =
      Keeps-try (c.config_none t name content) (λ _. still) (λ _. update_configs_none name configs)

  store_configs_none :
      (name : String) (configs : Dict String) → Keeps count (store_configs d name configs)
  unfolding store_configs
  store_configs_none name configs =
      Keeps-if (d.disable_bosh_configs && ltb 0 (length configs)) still
        (Keeps-if d.disable_bosh_configs still (update_configs_none name configs))

  deployment_manifest_none : (name : String) → Keeps count (get_deployment_manifest d name)
  unfolding get_deployment_manifest
  deployment_manifest_none name = Keeps-next (c.deployment_none name) by_found
    where
      by_found : (r : String × Bool) → Keeps count (found_or_fail d r)
      by_found (m, true) = still
      by_found (m, false) = still

  old_configs_none : (name : String) → Keeps count (get_old_configs d name)
  unfolding get_old_configs get_config_map
  old_configs_none name =
      Keeps-if d.disable_bosh_configs still (Keeps-next (c.configs_none name) (λ _. still))

  pending_none :
      (name : String) (previous : Option String) (m : String) (secrets configs : Dict String)
      → Keeps count (check_for_pending_changes d name previous m secrets configs)
  unfolding check_for_pending_changes
  pending_none name none m secrets configs = still
  pending_none name (some previous) m secrets configs =
      Keeps-next (c.generate_none _) λ g.
        Keeps-next (Keeps-still count (manifests_are_the_same d.unmarshal g.manifest m)) by_same
    where
      by_same : (same : Bool) → Keeps count (unless_pending d same)
      by_same true = still
      by_same false = still

  unless_skipped_none :
      (name : String) (previous : Option String) (m : String) (secrets configs : Dict String)
      → Keeps count (check_unless_skipped d name previous m secrets configs)
  unfolding check_unless_skipped
  unless_skipped_none name previous m secrets configs =
      Keeps-if d.skip_check_for_pending_changes still (pending_none name previous m secrets configs)

  do_deploy_one :
      (p : GenerateManifestProperties) (context : String) (n : ℕ) (w : W)
      → At n w
      → Below n (do_deploy d p context w).1
  unfolding do_deploy
  do_deploy_one p context n w e =
      next_leaves (At n) (Below n) (d.generate_manifest p w) _ ((c.generate_none p).at w ∙ e)
        at_most
        λ g _ e1.
          next_leaves (At n) (Below n) (store_secrets d d.bulk_set p.deployment_name g _) _
            ((store_secrets_none p.deployment_name g).at _ ∙ e1) at_most
            λ m _ e2.
              next_leaves (At n) (Below n) (store_configs d p.deployment_name g.configs _) _
                ((store_configs_none p.deployment_name g.configs).at _ ∙ e2) at_most
                λ _ _ e3.
                  follow_leaves (Below n) (Below n) (d.deploy m context _) _ _
                    (omega (arith, e3, c.deploy_one m context)) (λ _ l. l) (λ _ _ l. l) (λ _ _ l. l)

  -- What holds of a world that an operation leaves, with what the director answers at its beginning.
  abbrev StartsOne : String → W → W → Type 0
  StartsOne name w v =
      (count v ≤ count w + 1) × ((count v ≡ count w) ⊎ ((d.get_tasks_in_progress name w).0 ≡ ok []))

  idle_first :
      {A : Type 0} (name : String) (rest : Io W A) (w : W)
      → ((v : W) → At (count w) v → Below (count w) (rest v).1)
      → StartsOne name w ((assert_no_operations_in_progress d name >>= λ _. rest) w).1
  unfolding assert_no_operations_in_progress
  idle_first {A} name rest w h =
      by_answer (d.get_tasks_in_progress name w) refl ((c.tasks_none name).at w)
    where
      by_answer :
          (r : Result (List BoshTask) × W)
          → r.0 ≡ (d.get_tasks_in_progress name w).0
          → count r.1 ≡ count w
          → StartsOne name w
              (next
                (λ _. rest)
                (follow
                  (λ e.
                    fail (typed "ServiceError" (wrapped "error getting tasks for deployment" e)))
                  (idle_or_fail d)
                  r)).1
      by_answer (ok [], v) e k = (h v k, inr (sym e))
      by_answer (ok (t ∷ ts), v) e k = (omega (arith, k), inl k)
      by_answer (err x, v) e k = (omega (arith, k), inl k)
      by_answer (panic, v) e k = (omega (arith, k), inl k)

  pub create_once :
      (name plan_id : String) (params : Object) (context : String) (client : Option (Dict String))
      (w : W)
      → StartsOne name w (create d name plan_id params context client w).1
  unfolding create
  create_once name plan_id params context client w =
      idle_first name _ w (λ v e. do_deploy_one _ context (count w) v e)

  pub upgrade_once :
      (name : String) (plan : Plan) (params : Object) (context : String)
      (client : Option (Dict String)) (w : W)
      → StartsOne name w (upgrade d name plan params context client w).1
  unfolding upgrade
  upgrade_once name plan params context client w =
      let n = count w in
      idle_first name _ w λ v e.
        next_leaves (At n) (Below n) (get_deployment_manifest d name v) _
          ((deployment_manifest_none name).at v ∙ e) at_most
          λ m _ e1.
            next_leaves (At n) (Below n) (get_old_configs d name _) _
              ((old_configs_none name).at _ ∙ e1) at_most λ _ _ e2. do_deploy_one _ context n _ e2

  pub recreate_once :
      (name plan_id context : String) (w : W)
      → StartsOne name w (recreate d name plan_id context w).1
  unfolding recreate
  recreate_once name plan_id context w =
      idle_first name _ w (λ v e. omega (arith, e, c.recreate_one name context v))

  pub update_once :
      (name plan_id : String) (params : Object) (previous : Option String) (context : String)
      (secrets : Dict String) (client : Option (Dict String)) (w : W)
      → StartsOne name w (update d name plan_id params previous context secrets client w).1
  unfolding update
  update_once name plan_id params previous context secrets client w =
      let n = count w in
      idle_first name _ w λ v e.
        next_leaves (At n) (Below n) (get_deployment_manifest d name v) _
          ((deployment_manifest_none name).at v ∙ e) at_most
          λ m _ e1.
            next_leaves (At n) (Below n) (get_old_configs d name _) _
              ((old_configs_none name).at _ ∙ e1) at_most
              λ configs _ e2.
                next_leaves (At n) (Below n)
                  (check_unless_skipped d name previous m secrets configs _) _
                  ((unless_skipped_none name previous m secrets configs).at _ ∙ e2) at_most
                  λ _ _ e3. do_deploy_one _ context n _ e3
