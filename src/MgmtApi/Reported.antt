-- ===== src/MgmtApi/Reported.antt =====
-- On the metrics that mgmtapi/api.go reports for the whole offering.
use Prim.Native.String.{◌++◌}
use on_demand_service_broker.Prelude.{
  ℕ, ◌≡◌, refl, subst, ◌∙◌, Option, none, some, List, [], ◌∷◌, String, ok, All, In, inl, inr,
  In-append_left, In-append_right, arith,
}
use on_demand_service_broker.Prelude.Dict.{Dict}
use on_demand_service_broker.Prelude.Int.{ℤ, pos, sub_ℕ}
use on_demand_service_broker.Config.{ResourceQuota, Plan, ServiceOffering, find_by_id}
use on_demand_service_broker.Quotas.{CfServicePlan}
use on_demand_service_broker.Broker.Clients.{Clients}
use on_demand_service_broker.MgmtApi.{json}
use on_demand_service_broker.MgmtApi.Metrics.{
  Metric, Tally, no_tally, or_none, add_global_metric, add_global_resources, add_plan, add_plans,
  finish_metrics, metrics,
}
use on_demand_service_broker.MgmtApi.Usage.{
  read_cost, usage_of, instances_of, HasDistinctKinds, add_plans-Adds,
}

module _ (offering : ServiceOffering) where
  abbrev pub global_metric : String → ℤ → Metric
  global_metric name value = record {
    key = "/on-demand-broker/" ++ (offering.name ++ ("/" ++ name));
    value = value;
  }

  -- Metrics are only added.
  add_global_metric-adds :
      (name : String) (value : ℤ) (t : Tally)
      → In (global_metric name value) (add_global_metric offering name value t).metrics
  unfolding add_global_metric
  add_global_metric-adds name value t =
      In-append_right (global_metric name value) t.metrics _ (inl refl)

  add_global_metric-keeps :
      (m : Metric) (name : String) (value : ℤ) (t : Tally)
      → In m t.metrics
      → In m (add_global_metric offering name value t).metrics
  unfolding add_global_metric
  add_global_metric-keeps m name value t i = In-append_left m t.metrics _ i

  -- A round of the loop over the global quotas.
  abbrev with_used : String → Tally → Tally
  with_used kind t = add_global_metric offering (kind ++ "/used") (pos (read_cost kind t)) t

  abbrev with_kind : String → ResourceQuota → Tally → Tally
  with_kind kind quota t =
      add_global_metric offering (kind ++ "/remaining") (sub_ℕ quota.limit (read_cost kind t))
        (with_used kind t)

  add_global_resources-keeps :
      (m : Metric) (quotas : Dict ResourceQuota) (t : Tally)
      → In m t.metrics
      → In m (add_global_resources offering quotas t).metrics
  unfolding add_global_resources
  add_global_resources-keeps m [] t i = i
  add_global_resources-keeps m ((kind, quota) ∷ quotas) t i =
      add_global_resources-keeps m quotas (with_kind kind quota t)
        (add_global_metric-keeps m _ _ (with_used kind t) (add_global_metric-keeps m _ _ t i))

  abbrev pub ReportsKind : String → ResourceQuota → ℕ → List Metric → Type 0
  ReportsKind kind quota used ms =
      In (global_metric (kind ++ "/used") (pos used)) ms
      × In (global_metric (kind ++ "/remaining") (sub_ℕ quota.limit used)) ms

  add_global_resources-adds :
      (kind : String) (quota : ResourceQuota) (quotas : Dict ResourceQuota) (t : Tally)
      → In (kind, quota) quotas
      → ReportsKind kind quota (read_cost kind t) (add_global_resources offering quotas t).metrics
  unfolding add_global_resources add_global_metric
  add_global_resources-adds kind quota [] t i = absurd i
  add_global_resources-adds kind quota ((j, q) ∷ quotas) t (inl e) =
      subst
        (λ (entry : String × ResourceQuota).
          ReportsKind entry.0 entry.1 (read_cost entry.0 t)
            (add_global_resources offering ((j, q) ∷ quotas) t).metrics)
        e
        (
          add_global_resources-keeps _ quotas (with_kind j q t) (
              add_global_metric-keeps _ _ _ (with_used j t)
                (add_global_metric-adds (j ++ "/used") (pos (read_cost j t)) t)),
          add_global_resources-keeps _ quotas (with_kind j q t) (
              add_global_metric-adds (j ++ "/remaining") (sub_ℕ q.limit (read_cost j t))
                (with_used j t)),
        )
  add_global_resources-adds kind quota ((j, q) ∷ quotas) t (inr i) =
      add_global_resources-adds kind quota quotas (with_kind j q t) i

  abbrev with_total : Tally → Tally
  with_total t = add_global_metric offering "total_instances" (pos t.instances) t

  finish_metrics-reports :
      (kind : String) (quota : ResourceQuota) (t : Tally)
      → In (kind, quota) (or_none offering.global_quotas.resources)
      → ReportsKind kind quota (read_cost kind t) (finish_metrics offering t)
        × In (global_metric "total_instances" (pos t.instances)) (finish_metrics offering t)
  unfolding finish_metrics add_global_metric
  finish_metrics-reports kind quota t i =
      by_limit offering.global_quotas.service_instance_limit refl
    where
      total_metric : Metric
      total_metric = global_metric "total_instances" (pos t.instances)

      total : In (global_metric "total_instances" (pos t.instances)) (with_total t).metrics
      total = add_global_metric-adds "total_instances" (pos t.instances) t

      by_limit :
          (limit : Option ℕ)
          → offering.global_quotas.service_instance_limit ≡ limit
          → ReportsKind kind quota (read_cost kind t) (finish_metrics offering t)
            × In (global_metric "total_instances" (pos t.instances)) (finish_metrics offering t)
      by_limit none e = rw e (
        add_global_resources-adds kind quota (or_none offering.global_quotas.resources)
            (with_total t) i,
        add_global_resources-keeps total_metric (or_none offering.global_quotas.resources)
            (with_total t) total,
      )
      by_limit (some limit) e =
          let u =
            add_global_metric offering "quota_remaining" (sub_ℕ limit t.instances) (with_total t) in
          rw e (
            add_global_resources-adds kind quota (or_none offering.global_quotas.resources) u i,
            add_global_resources-keeps total_metric (or_none offering.global_quotas.resources) u (
                add_global_metric-keeps total_metric "quota_remaining" (sub_ℕ limit t.instances)
                  (with_total t) total),
          )

  abbrev pub IsKnown : CfServicePlan × ℕ → Type 0
  IsKnown (p, count) = (plan : Plan) × (find_by_id p.unique_id offering.plans ≡ some plan)

  counted_of-All :
      (counts : List (CfServicePlan × ℕ)) (t : Tally)
      → All IsKnown counts
      → (u : Tally) × (add_plans offering counts t ≡ some u)
  unfolding add_plans
  counted_of-All [] t k = (t, refl)
  counted_of-All ((p, count) ∷ counts) t ((plan, e), k) =
      let (u, h) = counted_of-All counts (add_plan offering plan count t) k in (u, rw e h)

module _ {W : Type 0} (b : Clients W) (c : CfServicePlan × ℕ) (cs : List (CfServicePlan × ℕ))
    (kind : String) (quota : ResourceQuota) (w v : W) where
  -- The metrics report how many instances there are and, for every kind of resource with a global
  -- quota, what the instances use, the instances of each plan by the cost in that plan, and what
  -- is left of the quota. This holds where the platform counts at least one plan, all the plans that
  -- it counts are in the catalog, and no plan limits a kind twice.
  pub metrics_report_usage :
      b.count_instances_of_service_offering b.broker.service_offering.id w ≡ (ok (c ∷ cs), v)
      → All (IsKnown b.broker.service_offering) (c ∷ cs)
      → All HasDistinctKinds b.broker.service_offering.plans
      → In (kind, quota) (or_none b.broker.service_offering.global_quotas.resources)
      → (ms : List Metric) × (metrics b w ≡ (ok (json ms), v))
        × ReportsKind b.broker.service_offering kind quota
            (usage_of b.broker.service_offering kind (c ∷ cs))
            ms
        × In
            (global_metric b.broker.service_offering "total_instances"
              (pos (instances_of (c ∷ cs))))
            ms
  unfolding metrics
  metrics_report_usage counted known distinct i =
      let offering = b.broker.service_offering in
      let (u, e) = counted_of-All offering (c ∷ cs) no_tally known in
      let (used, total) = add_plans-Adds offering kind (c ∷ cs) no_tally u distinct e in
      let (reports, totals) = finish_metrics-reports offering kind quota u i in
      (
        finish_metrics offering u,
        rw (counted, e) refl,
        subst (λ n. ReportsKind offering kind quota n (finish_metrics offering u))
            (used ∙ omega arith) reports,
        subst
            (λ n. In (global_metric offering "total_instances" (pos n)) (finish_metrics offering u))
            (total ∙ omega arith) totals,
      )
