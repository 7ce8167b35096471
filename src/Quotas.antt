-- ===== src/Quotas.antt =====
-- broker/quotas.go: the limits that a new instance of a plan must respect.
-- The message of an error is kept as its kind and its numbers. Go goes over a map in no fixed
-- order; here the order is that of the list, and only the order of the messages depends on it.
pub mod Usage
pub mod Checks
pub mod Laws
use on_demand_service_broker.Prelude.{
  ℕ, zero, ◌+◌, ◌*◌, ltb, leb, nat_eq, Bool, Option, none, some, List, [], ◌∷◌, ◌++◌, String,
  if◌then◌else◌,
}
use on_demand_service_broker.Prelude.Dict.{Dict, lookup, insert}
use on_demand_service_broker.Config.{ResourceQuota, Quotas, Plan, ServiceOffering}

-- cf.ServicePlan, by the field that the quotas read.
pub record CfServicePlan : Type 0 where
  pub unique_id : String

pub record ExceededQuota : Type 0 where
  pub name : String
  pub limit : ℕ
  pub usage : ℕ
  pub required : ℕ

pub data QuotaError : Type 0 where
  plan_instance_limit_exceeded : ℕ → QuotaError
  global_instance_limit_exceeded : ℕ → QuotaError
  global_quotas_exceeded : List ExceededQuota → QuotaError
  plan_quotas_exceeded : List ExceededQuota → QuotaError

convert_from : Dict ℕ → List (CfServicePlan × ℕ) → Dict ℕ
unfolding insert
convert_from counts [] = counts
convert_from counts ((plan, count) ∷ rest) = convert_from (insert plan.unique_id count counts) rest

unfoldable pub convert_cf_plan_counts : List (CfServicePlan × ℕ) → Dict ℕ
unfolding convert_from
convert_cf_plan_counts counts = convert_from [] counts

-- A missing key reads as the zero value.
abbrev pub or_zero : Option ℕ → ℕ
or_zero none = 0
or_zero (some n) = n

abbrev cost_in : Option ResourceQuota → ℕ
cost_in none = 0
cost_in (some q) = q.cost

abbrev cost_of_resources : String → Option (Dict ResourceQuota) → ℕ
unfolding lookup
cost_of_resources kind none = 0
cost_of_resources kind (some resources) = cost_in (lookup kind resources)

-- `p.Quotas.Resources[kind].Cost`
unfoldable pub cost : String → Plan → ℕ
unfolding lookup
cost kind p = cost_of_resources kind p.quotas.resources

-- `planCounts[plan.ID]`
unfoldable pub instance_count : Plan → Dict ℕ → ℕ
unfolding lookup
instance_count plan counts = or_zero (lookup plan.id counts)

limit_reached : ℕ → Option ℕ → Option QuotaError
limit_reached limit none = none
limit_reached limit (some count) =
    if leb limit count then some (plan_instance_limit_exceeded count) else none

pub check_plan_service_count : Plan → Dict ℕ → ℕ → Option QuotaError
unfolding limit_reached lookup
check_plan_service_count plan counts limit = limit_reached limit (lookup plan.id counts)

unfoldable pub total : Dict ℕ → ℕ
total [] = 0
total ((_, count) ∷ counts) = count + total counts

pub check_global_service_count : Dict ℕ → ℕ → Option QuotaError
unfolding total
check_global_service_count counts limit =
    if leb limit (total counts) then some (global_instance_limit_exceeded (total counts)) else none

-- The loop over the plans of checkGlobalResourceQuotaNotExceeded. Every round reads the count of
-- the requested plan `plan`, not of the plan `p` of the round.
unfoldable pub global_usage : String → Plan → Dict ℕ → ℕ → List Plan → ℕ
unfolding cost instance_count
global_usage kind plan counts usage [] = usage
global_usage kind plan counts usage (p ∷ ps) =
    global_usage kind plan counts
      (if nat_eq (cost kind p) 0 then usage else usage + cost kind p * instance_count plan counts)
      ps

pub exceeded : String → ℕ → ℕ → ℕ → List ExceededQuota
exceeded kind limit usage required =
    if ltb limit (usage + required)
    then record { name = kind; limit = limit; usage = usage; required = required } ∷ []
    else []

unfoldable pub global_exceeded : Plan → List Plan → Dict ℕ → Dict ResourceQuota → List ExceededQuota
unfolding global_usage cost exceeded
global_exceeded plan plans counts [] = []
global_exceeded plan plans counts ((kind, quota) ∷ quotas) =
    exceeded kind quota.limit (global_usage kind plan counts 0 plans) (cost kind plan)
    ++ global_exceeded plan plans counts quotas

pub reported : (List ExceededQuota → QuotaError) → List ExceededQuota → Option QuotaError
reported report [] = none
reported report (q ∷ qs) = some (report (q ∷ qs))

pub check_global_resource_quota_not_exceeded :
    Plan → List Plan → Dict ℕ → Dict ResourceQuota → Option QuotaError
unfolding reported global_exceeded
check_global_resource_quota_not_exceeded plan plans counts quotas =
    reported global_quotas_exceeded (global_exceeded plan plans counts quotas)

plan_usage : String → Plan → Dict ℕ → ℕ
unfolding cost instance_count
plan_usage kind plan counts =
    if nat_eq (cost kind plan) 0 then 0 else 0 + cost kind plan * instance_count plan counts

plan_exceeded : Plan → Dict ℕ → Dict ResourceQuota → List ExceededQuota
unfolding plan_usage cost exceeded
plan_exceeded plan counts [] = []
plan_exceeded plan counts ((kind, quota) ∷ quotas) =
    (if nat_eq quota.limit 0
      then []
      else exceeded kind quota.limit (plan_usage kind plan counts) (cost kind plan))
    ++ plan_exceeded plan counts quotas

pub check_plan_resource_quota_not_exceeded : Plan → Dict ℕ → Dict ResourceQuota → Option QuotaError
unfolding reported plan_exceeded
check_plan_resource_quota_not_exceeded plan counts quotas =
    reported plan_quotas_exceeded (plan_exceeded plan counts quotas)

module _ {ℓ} {A : Type ℓ} where
  -- `if limit := ...; limit != nil { if err := check(limit); err != nil { append } }`
  abbrev checked_if_set : (A → Option QuotaError) → Option A → List QuotaError
  checked_if_set check none = []
  checked_if_set check (some a) = elim (check a) [ none ↦ [] | some e ↦ e ∷ [] ]

-- The errors that are joined into one; none means that the quotas allow the instance.
unfoldable pub check_quotas : ServiceOffering → Plan → List (CfServicePlan × ℕ) → List QuotaError
unfolding convert_cf_plan_counts check_plan_service_count check_global_service_count
    check_global_resource_quota_not_exceeded check_plan_resource_quota_not_exceeded
check_quotas offering plan cf_plan_counts =
    let counts = convert_cf_plan_counts cf_plan_counts in
    checked_if_set (check_plan_service_count plan counts) plan.quotas.service_instance_limit
    ++ (checked_if_set (check_global_service_count counts)
          offering.global_quotas.service_instance_limit
        ++ (checked_if_set (check_global_resource_quota_not_exceeded plan offering.plans counts)
              offering.global_quotas.resources
            ++ checked_if_set (check_plan_resource_quota_not_exceeded plan counts)
                plan.quotas.resources))
