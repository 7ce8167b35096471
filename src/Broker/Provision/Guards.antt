-- ===== src/Broker/Provision/Guards.antt =====
-- On when broker/provision.go creates a deployment.
use on_demand_service_broker.Prelude.{
  ℕ, ◌+◌, ◌≤◌, ◌≡◌, refl, ◌∙◌, ◌⊎◌, inl, inr, Bool, true, false, Option, none, some, List, [], ◌∷◌,
  String, Result, ok, err, panic, fail, follow, arith,
}
use on_demand_service_broker.Prelude.Worlds.{next_leaves, follow_leaves}
use on_demand_service_broker.Json.{Object, get}
use on_demand_service_broker.Config.{Plan, find_plan_by_id}
use on_demand_service_broker.Quotas.{CfServicePlan, QuotaError, check_quotas}
use on_demand_service_broker.Broker.{deployment_name, generic_error}
use on_demand_service_broker.Broker.Clients.{Clients}
use on_demand_service_broker.Broker.Provision.{
  manifest_error, check_absent, check_room, check_plan_schemas, provision_instance, from_context,
  plan_or_fail, quotas_or_fail, not_found_or_fail, deploy_instance, context_id_if,
}
use on_demand_service_broker.Broker.Provision.Counting.{
  CountsCreations, check_plan_schemas_none, from_context_none, space_guid_none, context_id_none,
  finish_none, check_absent_none, check_room_none,
}
use on_demand_service_broker.Broker.Uaa.{get_space_guid_from_context}

module _ {W : Type 0} (b : Clients W) (instance_id plan_id : String) where
  -- What the calls answered before a deployment is created: the deployment is not found, and the counts
  -- of the instances leave room for one of the plan.
  pub record IsAdmitted : Type 0 where
    pub plan : Plan
    pub has_plan : find_plan_by_id b.broker.service_offering plan_id ≡ some plan
    pub asked_director : W
    pub manifest : String
    pub absent :
        (b.get_manifest (deployment_name instance_id) asked_director).0 ≡ ok (manifest, false)
    pub asked_platform : W
    pub counts : List (CfServicePlan × ℕ)
    pub counted :
        (b.count_instances_of_service_offering b.broker.service_offering.id asked_platform).0
        ≡ ok counts
    pub within_quotas : check_quotas b.broker.service_offering plan counts ≡ []

module _ {W : Type 0} (b : Clients W) (count : W → ℕ) (c : CountsCreations b count)
    (instance_id : String) where
  abbrev pub At : ℕ → W → Type 0
  At n w = count w ≡ n

  abbrev pub Below : ℕ → W → Type 0
  Below n w = count w ≤ n + 1

  pub at_most : {n : ℕ} (w : W) → At n w → Below n w
  at_most w h = omega arith

  deploy_one :
      (name : String) (params : Object) (plan : Plan) (n : ℕ) (w : W)
      → At n w
      → Below n (deploy_instance b instance_id name params plan w).1
  unfolding deploy_instance
  deploy_one name params plan n w e =
      next_leaves (At n) (Below n) (context_id_if b plan.lifecycle_errands w) _
        ((context_id_none b count c plan.lifecycle_errands).at w ∙ e) at_most
        λ x _ e1.
          next_leaves (At n) (Below n)
            (from_context get_space_guid_from_context (get "context" params) _) _
            ((from_context_none b count c get_space_guid_from_context (get "context" params)
                  (space_guid_none b count c)).at
                _
              ∙ e1)
            at_most
            λ s _ e2.
              follow_leaves (At n) (Below n) (b.uaa.create_client instance_id name s _) _ _
                ((c.create_client_none instance_id name s).at _ ∙ e2) at_most (λ _. at_most)
                λ u _ e3.
                  follow_leaves (Below n) (Below n)
                    (b.deployer.create (deployment_name instance_id) plan.id params x u _) _ _
                    (omega
                      (arith, e3, c.create_one (deployment_name instance_id) plan.id params x u _))
                    (λ _ l. l) (λ _ _ l. l)
                    (λ d _ l. omega (arith, l, (finish_none b count c instance_id s plan x d).at _))

  abbrev pub Guarded : String → ℕ → W → Type 0
  Guarded plan_id n v = Below n v × (At n v ⊎ IsAdmitted b instance_id plan_id)

  nothing : (plan_id : String) {n : ℕ} (w : W) → At n w → Guarded plan_id n w
  nothing plan_id w h = (at_most w h, inl h)

  absent_of_ok :
      (w : W) (u : Unit {0})
      → (check_absent b instance_id w).0 ≡ ok u
      → (m : String) × ((b.get_manifest (deployment_name instance_id) w).0 ≡ ok (m, false))
  unfolding check_absent
  absent_of_ok w u = by_answer (b.get_manifest (deployment_name instance_id) w)
    where
      by_answer :
          (r : Result (String × Bool) × W)
          → (follow (λ e. fail (manifest_error b e)) not_found_or_fail r).0 ≡ ok u
          → (m : String) × (r.0 ≡ ok (m, false))
      by_answer (ok (m, false), v) e = (m, refl)
      by_answer (ok (m, true), v) e = cc
      by_answer (err x, v) e = cc
      by_answer (panic, v) e = cc

  room_of_ok :
      (plan : Plan) (w : W) (u : Unit {0})
      → (check_room b plan w).0 ≡ ok u
      → (counts : List (CfServicePlan × ℕ)) × ((b.count_instances_of_service_offering
            b.broker.service_offering.id w).0
          ≡ ok counts)
        × (check_quotas b.broker.service_offering plan counts ≡ [])
  unfolding check_room
  room_of_ok plan w u =
      by_answer (b.count_instances_of_service_offering b.broker.service_offering.id w)
    where
      by_quotas : (q : List QuotaError) (v : W) → (quotas_or_fail q v).0 ≡ ok u → q ≡ []
      by_quotas [] v e = refl
      by_quotas (x ∷ xs) v e = cc

      by_answer :
          (r : Result (List (CfServicePlan × ℕ)) × W)
          → (follow
              (λ e. fail (generic_error e))
              (λ counts. quotas_or_fail (check_quotas b.broker.service_offering plan counts))
              r).0
            ≡ ok u
          → (counts : List (CfServicePlan × ℕ)) × (r.0 ≡ ok counts)
            × (check_quotas b.broker.service_offering plan counts ≡ [])
      by_answer (ok counts, v) e = (counts, refl, by_quotas _ v e)
      by_answer (err x, v) e = cc
      by_answer (panic, v) e = cc

  plan_of_ok :
      (o : Option Plan) (w : W) (plan : Plan) → (plan_or_fail o w).0 ≡ ok plan → o ≡ some plan
  plan_of_ok none w plan e = cc
  plan_of_ok (some p) w plan e = cc

  plan_none : (o : Option Plan) (w : W) → count (plan_or_fail o w).1 ≡ count w
  plan_none none w = refl
  plan_none (some p) w = refl

  pub instance-Guarded :
      (plan_id : String) (params : Object) (name : String) (n : ℕ) (w : W)
      → At n w
      → Guarded plan_id n (provision_instance b instance_id plan_id params name w).1
  unfolding provision_instance
  instance-Guarded plan_id params name n w e =
      let found = find_plan_by_id b.broker.service_offering plan_id in
      next_leaves (At n) (Guarded plan_id n) (plan_or_fail found w) _ (plan_none found w ∙ e)
        (nothing plan_id)
        λ plan p e1.
          next_leaves (At n) (Guarded plan_id n) (check_absent b instance_id _) _
            ((check_absent_none b count c instance_id).at _ ∙ e1) (nothing plan_id)
            λ u a e2.
              next_leaves (At n) (Guarded plan_id n) (check_room b plan _) _
                ((check_room_none b count c plan).at _ ∙ e2) (nothing plan_id)
                λ u' r e3.
                  let (m, absent) = absent_of_ok _ u a in
                  let (counts, counted, room) = room_of_ok plan _ u' r in
                  next_leaves (At n) (Guarded plan_id n) (check_plan_schemas b params plan _) _
                    ((check_plan_schemas_none b count c params plan).at _ ∙ e3) (nothing plan_id)
                    λ _ _ e4. (
                      deploy_one name params plan n _ e4,
                      inr (record {
                        plan = plan;
                        has_plan = plan_of_ok found w plan p;
                        asked_director = (plan_or_fail found w).1;
                        manifest = m;
                        absent = absent;
                        asked_platform = _;
                        counts = counts;
                        counted = counted;
                        within_quotas = room;
                      }),
                    )
