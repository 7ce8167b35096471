-- ===== src/MgmtApi/Usage.antt =====
-- On what mgmtapi/api.go counts for its metrics.
use on_demand_service_broker.Prelude.{
  ℕ, ◌+◌, ◌*◌, nat_eq, ◌≡◌, refl, ap, subst, ◌∙◌, Bool-cases, inl, inr, true, Option, Option-cases,
  none, some, List, [], ◌∷◌, String, ◌==◌, eq_iff, arith, ◌≢◌, All, if◌then◌else◌,
}
use on_demand_service_broker.Prelude.Dict.{Dict, lookup, insert, keys, Distinct, lookup-insert}
use on_demand_service_broker.Config.{ResourceQuota, Plan, ServiceOffering, find_by_id}
use on_demand_service_broker.Quotas.{CfServicePlan, or_zero}
use on_demand_service_broker.MgmtApi.Metrics.{
  Tally, add_cost, add_resource, add_resources, add_plan, add_plans, add_plan_metric, or_none,
}

abbrev pub cost_at : Option ResourceQuota → ℕ
cost_at none = 0
cost_at (some quota) = quota.cost

abbrev pub read_cost : String → Tally → ℕ
unfolding lookup
read_cost kind t = or_zero (lookup kind t.costs)

abbrev pub instances_of : List (CfServicePlan × ℕ) → ℕ
instances_of [] = 0
instances_of ((p, count) ∷ counts) = count + instances_of counts

-- The kinds of resource in the quotas of a plan are distinct.
abbrev pub HasDistinctKinds : Plan → Type 0
HasDistinctKinds plan = Distinct (keys (or_none plan.quotas.resources))

module _ (offering : ServiceOffering) (kind : String) where
  read-add_cost :
      (j : String) (used : ℕ) (t : Tally)
      → read_cost kind (add_cost offering j used t)
        ≡ (if j == kind then used + read_cost kind t else read_cost kind t)
  unfolding lookup insert
  read-add_cost j used t = elim (Bool-cases (j == kind)) [
    | inl e ↦ rw (lookup-insert j kind (used + read_cost j t) t.costs, e, (eq_iff j kind).0 e) refl
    | inr e ↦ rw (lookup-insert j kind (used + read_cost j t) t.costs, e) refl
  ]

  abbrev added : String → ℕ → Tally → ℕ
  added j used t = if j == kind then used + read_cost kind t else read_cost kind t

  none_added : (j : String) (used : ℕ) (t : Tally) → used ≡ 0 → read_cost kind t ≡ added j used t
  none_added j used t e = ground (arith, e)

  read-add_resource :
      (plan_name : String) (count : ℕ) (j : String) (quota : ResourceQuota) (t : Tally)
      → read_cost kind (add_resource offering plan_name count j quota t)
        ≡ added j (quota.cost * count) t
  unfolding add_resource add_plan_metric lookup
  read-add_resource plan_name count j quota t = elim (Bool-cases (nat_eq quota.cost 0)) [
    | inl e ↦ rw e (none_added j (quota.cost * count) t (nothing quota.cost e))
    | inr e ↦ elim (Bool-cases (nat_eq quota.limit 0)) [
      | inl l ↦ rw (e, l) (read-add_cost j (quota.cost * count) t)
      | inr l ↦ rw (e, l) (read-add_cost j (quota.cost * count) t)
    ]
  ]
    where
      nothing : (c : ℕ) → nat_eq c 0 ≡ true → c * count ≡ 0
      nothing c e = let z : c ≡ 0 = ground arith in rw z (omega arith)

  absent_cost :
      (quotas : Dict ResourceQuota) → All (λ j. kind ≢ j) (keys quotas) → lookup kind quotas ≡ none
  unfolding lookup
  absent_cost [] h = refl
  absent_cost ((j, q) ∷ quotas) h = ground (arith, eq_iff j kind, absent_cost quotas h.1, h.0)

  read-add_resources :
      (plan_name : String) (count : ℕ) (quotas : Dict ResourceQuota) (t : Tally)
      → Distinct (keys quotas)
      → read_cost kind (add_resources offering plan_name count quotas t)
        ≡ cost_at (lookup kind quotas) * count + read_cost kind t
  unfolding add_resources lookup
  read-add_resources plan_name count [] t d = omega arith
  read-add_resources plan_name count ((j, q) ∷ quotas) t d =
      read-add_resources plan_name count quotas (add_resource offering plan_name count j q t) d.1
      ∙ elim (Bool-cases (j == kind)) [
        | inl e ↦
            (let same : j ≡ kind = (eq_iff j kind).0 e in
              rw
                (
                  read-add_resource plan_name count j q t,
                  e,
                  absent_cost quotas (subst (λ k. All (λ i. k ≢ i) (keys quotas)) same d.0),
                )
                (omega arith))
        | inr e ↦ rw (read-add_resource plan_name count j q t, e) refl
      ]

  abbrev pub cost_in_plan : Option Plan → ℕ
  unfolding lookup
  cost_in_plan none = 0
  cost_in_plan (some plan) = cost_at (lookup kind (or_none plan.quotas.resources))

  -- What the instances use, the instances of each plan by the cost in that plan.
  abbrev pub usage_of : List (CfServicePlan × ℕ) → ℕ
  usage_of [] = 0
  usage_of ((p, count) ∷ counts) =
      cost_in_plan (find_by_id p.unique_id offering.plans) * count + usage_of counts

  found-HasDistinctKinds :
      (plans : List Plan) (id : String) (plan : Plan)
      → All HasDistinctKinds plans
      → find_by_id id plans ≡ some plan
      → HasDistinctKinds plan
  unfolding find_by_id
  found-HasDistinctKinds [] id plan d e = cc
  found-HasDistinctKinds (p ∷ plans) id plan d e = elim (Bool-cases (p.id == id)) [
    | inl h ↦ subst HasDistinctKinds (some-eq (rw h at e)) d.0
    | inr h ↦ found-HasDistinctKinds plans id plan d.1 (rw h at e)
  ]
    where
      some-eq : some p ≡ some plan → p ≡ plan
      some-eq h = cc

  instances-add_resources :
      (plan_name : String) (count : ℕ) (quotas : Dict ResourceQuota) (t : Tally)
      → (add_resources offering plan_name count quotas t).instances ≡ t.instances
  unfolding add_resources add_resource add_plan_metric
  instances-add_resources plan_name count [] t = refl
  instances-add_resources plan_name count ((j, q) ∷ quotas) t =
      instances-add_resources plan_name count quotas (add_resource offering plan_name count j q t)
      ∙ elim (Bool-cases (nat_eq q.cost 0)) [
        | inl e ↦ rw e refl
        | inr e ↦ elim (Bool-cases (nat_eq q.limit 0)) [
          | inl l ↦ rw (e, l) refl
          | inr l ↦ rw (e, l) refl
        ]
      ]

  -- What a plan adds to the tally.
  abbrev pub Adds : ℕ → ℕ → Tally → Tally → Type 0
  Adds used count t u =
      (read_cost kind u ≡ used + read_cost kind t) × (u.instances ≡ t.instances + count)

  add_plan-Adds :
      (plan : Plan) (count : ℕ) (t : Tally)
      → HasDistinctKinds plan
      → Adds (cost_in_plan (some plan) * count) count t (add_plan offering plan count t)
  unfolding add_plan add_plan_metric lookup
  add_plan-Adds plan count t d = by_limit plan.quotas.service_instance_limit refl
    where
      by_limit :
          (limit : Option ℕ)
          → plan.quotas.service_instance_limit ≡ limit
          → Adds (cost_in_plan (some plan) * count) count t (add_plan offering plan count t)
      by_limit none e = rw e (
        read-add_resources plan.name count (or_none plan.quotas.resources) _ d,
        ap (λ n. n + count)
            (instances-add_resources plan.name count (or_none plan.quotas.resources) _),
      )
      by_limit (some limit) e = rw e (
        read-add_resources plan.name count (or_none plan.quotas.resources) _ d,
        ap (λ n. n + count)
            (instances-add_resources plan.name count (or_none plan.quotas.resources) _),
      )

  pub add_plans-Adds :
      (counts : List (CfServicePlan × ℕ)) (t u : Tally)
      → All HasDistinctKinds offering.plans
      → add_plans offering counts t ≡ some u
      → Adds (usage_of counts) (instances_of counts) t u
  unfolding add_plans
  add_plans-Adds [] t u d e =
      let same : t ≡ u = cc in subst (λ v. Adds 0 0 t v) same (omega arith, omega arith)
  add_plans-Adds ((p, count) ∷ counts) t u d e =
      elim (Option-cases (find_by_id p.unique_id offering.plans)) [
        | inl missing ↦ absurd (no_tally_left (rw missing at e))
        | inr (plan, found) ↦
            (let rest =
                add_plans-Adds counts (add_plan offering plan count t) u d (rw found at e) in
              let first =
                add_plan-Adds plan count t
                  (found-HasDistinctKinds offering.plans p.unique_id plan d found) in
              rw found (omega (arith, rest.0, first.0), omega (arith, rest.1, first.1)))
      ]
    where
      no_tally_left : ◌≡◌ {A = Option Tally} none (some u) → ⊥
      no_tally_left h = cc
