-- ===== src/Task/Plain.antt =====
-- On the errors of a creation by task/task.go, and what broker/provision.go makes of them.
use on_demand_service_broker.Prelude.{
  Option, none, some, List, [], ◌∷◌, String, Error, request_error, Io, length, ltb, ◌&&◌,
  Bool-cases, inl, inr,
}
use on_demand_service_broker.Prelude.Dict.{Dict}
use on_demand_service_broker.Prelude.Answers.{Refuses, next-Refuses, follow-Refuses}
use on_demand_service_broker.Json.{Object}
use on_demand_service_broker.Bosh.{BoshTask}
use on_demand_service_broker.Task.{
  Deployer, ManifestSecret, GenerateManifestProperties, GeneratedManifest,
  assert_no_operations_in_progress, store_secrets, update_configs, store_configs, do_deploy, create,
  idle_or_fail,
}

-- Not a RequestError of the director.
abbrev pub IsPlain : Error → Type 0
IsPlain (request_error message) = ⊥
IsPlain e = Unit

module _ {W : Type 0} where
  abbrev BulkPlain : Option (List ManifestSecret → Io W (Unit {0})) → Type 0
  BulkPlain none = Unit
  BulkPlain (some bulk_set) = (s : List ManifestSecret) (w : W) → Refuses IsPlain (bulk_set s w)

  -- Neither the adapter nor CredHub answers with an error of the director.
  pub record AnswersPlain (d : Deployer W) : Type 0 where
    pub generate_plain :
        (p : GenerateManifestProperties) (w : W) → Refuses IsPlain (d.generate_manifest p w)
    pub bulk_plain : BulkPlain d.bulk_set

module _ {W : Type 0} (d : Deployer W) (a : AnswersPlain d) where
  idle-IsPlain :
      (name : String) (w : W) → Refuses IsPlain (assert_no_operations_in_progress d name w)
  unfolding assert_no_operations_in_progress
  idle-IsPlain name w =
      follow-Refuses IsPlain (d.get_tasks_in_progress name w) _ _ (λ _ _. tt) by_tasks
    where
      by_tasks : (ts : List BoshTask) (v : W) → Refuses IsPlain (idle_or_fail d ts v)
      by_tasks [] v = tt
      by_tasks (t ∷ ts) v = tt

  secrets-IsPlain :
      (name : String) (g : GeneratedManifest) (w : W)
      → Refuses IsPlain (store_secrets d d.bulk_set name g w)
  secrets-IsPlain name g w = by_setter d.bulk_set a.bulk_plain
    where
      by_setter :
          (b : Option (List ManifestSecret → Io W (Unit {0})))
          → BulkPlain b
          → Refuses IsPlain (store_secrets d b name g w)
      by_setter none h = tt
      by_setter (some bulk_set) h = next-Refuses IsPlain (bulk_set _ w) _ (h _ w) (λ _ _. tt)

  update-IsPlain :
      (name : String) (configs : Dict String) (w : W)
      → Refuses IsPlain (update_configs d name configs w)
  unfolding update_configs
  update-IsPlain name [] w = tt
  update-IsPlain name ((t, content) ∷ configs) w =
      follow-Refuses IsPlain (d.update_config t name content w) _ _ (λ _ _. tt)
        (λ _ v. update-IsPlain name configs v)

  configs-IsPlain :
      (name : String) (configs : Dict String) (w : W)
      → Refuses IsPlain (store_configs d name configs w)
  unfolding store_configs
  configs-IsPlain name configs w =
      elim (Bool-cases (d.disable_bosh_configs && ltb 0 (length configs))) [
        | inl t ↦ rw t tt
        | inr t ↦ rw t (elim (Bool-cases d.disable_bosh_configs) [
          | inl s ↦ rw s tt
          | inr s ↦ rw s (update-IsPlain name configs w)
        ])
      ]

  -- The deployer never answers a creation with an error of the director's type, whatever the director
  -- answers, if neither the adapter nor CredHub answers with one.
  pub create-IsPlain :
      (name plan_id : String) (params : Object) (context : String) (client : Option (Dict String))
      (w : W)
      → Refuses IsPlain (create d name plan_id params context client w)
  unfolding create do_deploy
  create-IsPlain name plan_id params context client w =
      next-Refuses IsPlain (assert_no_operations_in_progress d name w) _ (idle-IsPlain name w)
        λ _ v. next-Refuses IsPlain (d.generate_manifest _ v) _ (a.generate_plain _ v) λ g v1.
          next-Refuses IsPlain (store_secrets d d.bulk_set name g v1) _ (secrets-IsPlain name g v1)
            λ m v2.
              next-Refuses IsPlain (store_configs d name g.configs v2) _
                (configs-IsPlain name g.configs v2)
                λ _ v3. follow-Refuses IsPlain (d.deploy m context v3) _ _ (λ _ _. tt) (λ _ _. tt)
