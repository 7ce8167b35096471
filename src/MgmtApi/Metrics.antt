-- ===== src/MgmtApi/Metrics.antt =====
-- metrics of mgmtapi/api.go, and mgmtapi/metrics.go. The Go map of the counts by plan is the list in the
-- order of its iteration.
use Prim.Native.String.{◌++◌}
use on_demand_service_broker.Prelude.{
  ℕ, ◌+◌, ◌*◌, nat_eq, Option, none, some, List, [], ◌∷◌, String, Result, ok, err, panic, Io,
  if◌then◌else◌,
}
use on_demand_service_broker.Prelude.Dict.{Dict, lookup, insert}
use on_demand_service_broker.Prelude.Int.{ℤ, pos, sub_ℕ}
use mathlib.Core.List
use on_demand_service_broker.Config.{ResourceQuota, Plan, ServiceOffering, find_by_id}
use on_demand_service_broker.Quotas.{CfServicePlan, or_zero}
use on_demand_service_broker.Broker.Clients.{Clients}
use on_demand_service_broker.MgmtApi.{Reply, status, json}

pub record Metric : Type 0 where
  pub key : String
  pub value : ℤ

-- What the loops of `metrics` add to: brokerMetrics and globalCostsPerResource.
pub record Tally : Type 0 where
  pub metrics : List Metric
  pub costs : Dict ℕ
  pub instances : ℕ

abbrev add_metric : Metric → List Metric → List Metric
add_metric m ms = List.◌++◌ ms (m ∷ [])

-- A nil map has no entries.
abbrev pub or_none : Option (Dict ResourceQuota) → Dict ResourceQuota
or_none none = []
or_none (some quotas) = quotas

abbrev pub no_tally : Tally
no_tally = record { metrics = []; costs = []; instances = 0 }

module _ (offering : ServiceOffering) where
  unfoldable pub add_plan_metric : String → String → ℤ → Tally → Tally
  add_plan_metric plan_name metric_name value t = record t {
    metrics =
        add_metric
          (record {
            key =
                "/on-demand-broker/"
                ++ (offering.name ++ ("/" ++ (plan_name ++ ("/" ++ metric_name))));
            value = value;
          })
          t.metrics;
  }

  unfoldable pub add_global_metric : String → ℤ → Tally → Tally
  add_global_metric metric_name value t = record t {
    metrics =
        add_metric
          (record {
            key = "/on-demand-broker/" ++ (offering.name ++ ("/" ++ metric_name));
            value = value;
          })
          t.metrics;
  }

  abbrev pub add_cost : String → ℕ → Tally → Tally
  unfolding lookup insert
  add_cost kind used t = record t {
    costs = insert kind (used + or_zero (lookup kind t.costs)) t.costs;
  }

  -- A round of the loop over the quotas of a plan.
  unfoldable pub add_resource : String → ℕ → String → ResourceQuota → Tally → Tally
  unfolding add_plan_metric add_cost
  add_resource plan_name count kind quota t =
      if nat_eq quota.cost 0
      then t
      else (let used = quota.cost * count in
          let counted =
            add_cost kind used (add_plan_metric plan_name (kind ++ "/used") (pos used) t) in
          if nat_eq quota.limit 0
          then counted
          else add_plan_metric plan_name (kind ++ "/remaining") (sub_ℕ quota.limit used) counted)

  unfoldable pub add_resources : String → ℕ → Dict ResourceQuota → Tally → Tally
  unfolding add_resource
  add_resources plan_name count [] t = t
  add_resources plan_name count ((kind, quota) ∷ quotas) t =
      add_resources plan_name count quotas (add_resource plan_name count kind quota t)

  abbrev pub add_limit : (ℤ → Tally → Tally) → Option ℕ → ℕ → Tally → Tally
  add_limit add none count t = t
  add_limit add (some limit) count t = add (sub_ℕ limit count) t

  unfoldable pub add_plan : Plan → ℕ → Tally → Tally
  unfolding add_plan_metric add_resources
  add_plan plan count t =
      let named = add_plan_metric plan.name "total_instances" (pos count) t in
      let limited =
        add_limit (add_plan_metric plan.name "quota_remaining") plan.quotas.service_instance_limit
          count named in
      let with_resources = add_resources plan.name count (or_none plan.quotas.resources) limited in
      record with_resources { instances = with_resources.instances + count }

  abbrev then_tally : (Plan → Option Tally) → Option Plan → Option Tally
  then_tally f none = none
  then_tally f (some plan) = f plan

  -- The loop over the plans; `none` where a plan is not in the catalog.
  unfoldable pub add_plans : List (CfServicePlan × ℕ) → Tally → Option Tally
  unfolding find_by_id add_plan
  add_plans [] t = some t
  add_plans ((cf_plan, count) ∷ plans) t =
      then_tally (λ plan. add_plans plans (add_plan plan count t))
        (find_by_id cf_plan.unique_id offering.plans)

  unfoldable pub add_global_resources : Dict ResourceQuota → Tally → Tally
  unfolding add_global_metric lookup
  add_global_resources [] t = t
  add_global_resources ((kind, quota) ∷ quotas) t =
      let used = or_zero (lookup kind t.costs) in
      add_global_resources quotas (
        add_global_metric (kind ++ "/remaining") (sub_ℕ quota.limit used)
          (add_global_metric (kind ++ "/used") (pos used) t))

  unfoldable pub finish_metrics : Tally → List Metric
  unfolding add_global_metric add_global_resources
  finish_metrics t =
      let named = add_global_metric "total_instances" (pos t.instances) t in
      let limited =
        add_limit (add_global_metric "quota_remaining")
          offering.global_quotas.service_instance_limit t.instances named in
      (add_global_resources (or_none offering.global_quotas.resources) limited).metrics

  abbrev metrics_of : Option Tally → List Metric
  metrics_of none = []
  metrics_of (some t) = finish_metrics t

  abbrev counted_metrics : List (CfServicePlan × ℕ) → Reply (List Metric)
  counted_metrics [] = status 503
  counted_metrics (plan ∷ plans) = json (metrics_of (add_plans (plan ∷ plans) no_tally))

module _ {W : Type 0} (b : Clients W) where
  abbrev answered : Result (List (CfServicePlan × ℕ)) × W → Result (Reply (List Metric)) × W
  answered (ok counts, w) = (ok (counted_metrics b.broker.service_offering counts), w)
  answered (err e, w) = (ok (status 500), w)
  answered (panic, w) = (panic, w)

  unfoldable pub metrics : Io W (Reply (List Metric))
  unfolding add_plans finish_metrics
  metrics w = answered (b.count_instances_of_service_offering b.broker.service_offering.id w)
