-- ===== src/Broker/Catalog/Merging.antt =====
-- On the maps that broker/catalog.go and config/config.go merge.
use on_demand_service_broker.Prelude.{
  ◌≡◌, ◌≢◌, refl, sym, ◌∙◌, Bool-cases, inl, inr, eq_iff, Option, none, some, [], ◌∷◌, String, ◌==◌,
  All, arith,
}
use on_demand_service_broker.Prelude.Dict.{Dict, lookup, insert, keys, Distinct, lookup-insert}
use on_demand_service_broker.Config.{MaintenanceInfo, copy_map}
use on_demand_service_broker.Broker.Catalog.{copy_of, normalize, merge_maintenance_info}

-- The first value, or else the second.
abbrev pub prefer {ℓ} : {V : Type ℓ} → Option V → Option V → Option V
prefer none other = other
prefer (some v) other = some v

lookup_absent {ℓ} :
    {V : Type ℓ} (key : String) (m : Dict V) → All (λ j. key ≢ j) (keys m) → lookup key m ≡ none
unfolding lookup
lookup_absent key [] h = refl
lookup_absent key ((j, v) ∷ m) h = ground (arith, eq_iff j key, lookup_absent key m h.1, h.0)

pub lookup-copy_map {ℓ} :
    {V : Type ℓ} (key : String) (dst src : Dict V)
    → Distinct (keys src)
    → lookup key (copy_map dst src) ≡ prefer (lookup key src) (lookup key dst)
unfolding copy_map lookup
lookup-copy_map key dst [] d = refl
lookup-copy_map key dst ((j, v) ∷ src) d =
    lookup-copy_map key (insert j v dst) src d.1 ∙ elim (Bool-cases (j == key)) [
      | inl hit ↦
          rw (lookup-insert j key v dst, hit, sym ((eq_iff j key).0 hit), lookup_absent j src d.0)
            refl
      | inr miss ↦ rw (lookup-insert j key v dst, miss) refl
    ]

-- The entries of a map of the info, none where the info is missing.
abbrev pub entries : (MaintenanceInfo → Dict String) → Option MaintenanceInfo → Dict String
entries f none = []
entries f (some info) = f info

abbrev pub read : String → Option (Dict String) → Option String
unfolding lookup
read key none = none
read key (some m) = lookup key m

read-normalize : (key : String) (m : Dict String) → read key (normalize m) ≡ lookup key m
unfolding lookup
read-normalize key [] = refl
read-normalize key (e ∷ m) = refl

copied :
    (f : MaintenanceInfo → Dict String) (key : String) (global plan : Option MaintenanceInfo)
    → Distinct (keys (entries f global))
    → Distinct (keys (entries f plan))
    → lookup key (copy_of f plan (copy_of f global []))
      ≡ prefer (lookup key (entries f plan)) (lookup key (entries f global))
unfolding copy_of lookup
copied f key none none g p = refl
copied f key none (some i) g p = lookup-copy_map key [] (f i) p
copied f key (some i) none g p = lookup-copy_map key [] (f i) g ∙ fallback (lookup key (f i))
  where
    fallback : (o : Option String) → prefer o none ≡ prefer none o
    fallback none = refl
    fallback (some v) = refl
copied f key (some i) (some j) g p =
    lookup-copy_map key (copy_map [] (f i)) (f j) p
    ∙ (let e = lookup-copy_map key [] (f i) g in rw e (again (lookup key (f i))))
  where
    again :
        (o : Option String)
        → prefer (lookup key (f j)) (prefer o none) ≡ prefer (lookup key (f j)) o
    again none = refl
    again (some v) = refl

merged :
    (f : MaintenanceInfo → Dict String) (key : String) (global plan : Option MaintenanceInfo)
    → Distinct (keys (entries f global))
    → Distinct (keys (entries f plan))
    → read key (normalize (copy_of f plan (copy_of f global [])))
      ≡ prefer (lookup key (entries f plan)) (lookup key (entries f global))
merged f key global plan g p =
    read-normalize key (copy_of f plan (copy_of f global [])) ∙ copied f key global plan g p

abbrev pub public_of : MaintenanceInfo → Dict String
public_of i = i.public

abbrev pub private_of : MaintenanceInfo → Dict String
private_of i = i.private

-- In the merged maintenance info, every key of the public map and of the private map reads what the
-- plan's info has under it, or else what the offering's info has; where either info is missing, the
-- other is what counts. The keys of each map are distinct.
pub merge_maintenance_info_prefers_plan :
    (key : String) (global plan : Option MaintenanceInfo)
    → Distinct (keys (entries public_of global))
    → Distinct (keys (entries public_of plan))
    → Distinct (keys (entries private_of global))
    → Distinct (keys (entries private_of plan))
    → (read key (merge_maintenance_info global plan).0
        ≡ prefer (lookup key (entries public_of plan)) (lookup key (entries public_of global)))
      × (read key (merge_maintenance_info global plan).1
          ≡ prefer (lookup key (entries private_of plan)) (lookup key (entries private_of global)))
unfolding merge_maintenance_info lookup
merge_maintenance_info_prefers_plan key none none gp pp gs ps = (refl, refl)
merge_maintenance_info_prefers_plan key none (some i) gp pp gs ps =
    (merged public_of key none (some i) gp pp, merged private_of key none (some i) gs ps)
merge_maintenance_info_prefers_plan key (some i) plan gp pp gs ps =
    (merged public_of key (some i) plan gp pp, merged private_of key (some i) plan gs ps)
