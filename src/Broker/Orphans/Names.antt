-- ===== src/Broker/Orphans/Names.antt =====
-- On the names of deployments, of broker/broker.go, and on the orphans among them, of
-- broker/orphan_deployments.go.
use Prim.Native.String.{◌++◌}
use text.Mathlib.Text.{starts_with}
use text.Mathlib.TextEquality.{starts_with_iff}
use text.Mathlib.TextPositions.{slice-append_right, starts_with-append, len-append}
use on_demand_service_broker.Prelude.{
  In, ◌≡◌, refl, sym, ap, subst, ◌∙◌, ◌↔◌, inl, inr, eq_iff, Bool, true, false, Bool-cases, List,
  [], ◌∷◌, String, ◌==◌,
}
use on_demand_service_broker.Broker.{deployment_name}
use on_demand_service_broker.Broker.Orphans.{
  instance_prefix, trim_prefix, instance_id, listed, orphans_among,
}

trimmed : (id : String) → trim_prefix (instance_prefix ++ id) instance_prefix ≡ id
trimmed id =
    rw (starts_with-append instance_prefix id, len-append instance_prefix id)
      (slice-append_right instance_prefix id)

-- The identifier of an instance comes back from the name of its deployment; and a name that has the
-- prefix of such names comes back from the identifier that it gives.
pub instance_id-deployment_name :
    (id name : String)
    → (instance_id (deployment_name id) ≡ id)
      × (starts_with name instance_prefix ≡ true → deployment_name (instance_id name) ≡ name)
unfolding instance_id deployment_name
instance_id-deployment_name id name = (
  trimmed id,
  λ h.
      let (u, e) = (starts_with_iff name instance_prefix).0 h in
      subst (λ n. instance_prefix ++ trim_prefix n instance_prefix ≡ n) e
        (ap (λ i. instance_prefix ++ i) (trimmed u)),
)

both_ways : (b : Bool) → b ≡ true → b ≡ false → ⊥
both_ways b t f = cc

listed_step :
    (x id : String) (xs : List String)
    → ((listed xs id ≡ true) ↔ In id xs)
    → (listed (x ∷ xs) id ≡ true) ↔ In id (x ∷ xs)
listed_step x id xs later = (
  λ h. elim (Bool-cases (x == id)) [
    | inl e ↦ inl ((eq_iff x id).0 e)
    | inr e ↦ inr (later.0 (rw e at h))
  ],
  back,
)
  where
    back : In id (x ∷ xs) → listed (x ∷ xs) id ≡ true
    back (inl e) = rw ((eq_iff x id).1 e) refl
    back (inr m) = elim (Bool-cases (x == id)) [ inl e ↦ rw e refl | inr e ↦ rw e (later.1 m) ]

listed_iff : (ids : List String) (id : String) → (listed ids id ≡ true) ↔ In id ids
listed_iff [] id = (λ e. cc, λ h. absurd h)
listed_iff (x ∷ xs) id = listed_step x id xs (listed_iff xs id)

-- The name of a deployment of no instance listed.
abbrev pub IsOrphan : List String → String → Type 0
IsOrphan instance_ids name = (id : String) × (name ≡ deployment_name id) × ¬ In id instance_ids

module _ (instance_ids : List String) (name : String) where
  IsOrphan-of_tests :
      starts_with name instance_prefix ≡ true
      → listed instance_ids (instance_id name) ≡ false
      → IsOrphan instance_ids name
  IsOrphan-of_tests h k = (
    instance_id name,
    sym ((instance_id-deployment_name "" name).1 h),
    λ m. both_ways _ ((listed_iff instance_ids (instance_id name)).1 m) k,
  )

  tests_of-IsOrphan :
      IsOrphan instance_ids name
      → (starts_with name instance_prefix ≡ true) × (listed instance_ids (instance_id name) ≡ false)
  unfolding deployment_name
  tests_of-IsOrphan (id, e, absent) = (
    rw e (starts_with-append instance_prefix id),
    elim (Bool-cases (listed instance_ids (instance_id name))) [
      | inr k ↦ k
      | inl k ↦ absurd (
          absent (
            subst (λ i. In i instance_ids) same ((listed_iff instance_ids (instance_id name)).0 k)))
    ],
  )
    where
      same : instance_id name ≡ id
      same = ap instance_id e ∙ (instance_id-deployment_name id "").0

module _ (ids : List String) (x name : String) (xs : List String)
    (later : In name (orphans_among ids xs) ↔ (In name xs × IsOrphan ids name)) where
  skipped : ¬ IsOrphan ids x → In name (x ∷ xs) × IsOrphan ids name → In name (orphans_among ids xs)
  skipped no_orphan (inl e, o) = absurd (no_orphan (subst (IsOrphan ids) (sym e) o))
  skipped no_orphan (inr m, o) = later.1 (m, o)

  passed : In name (orphans_among ids xs) → In name (x ∷ xs) × IsOrphan ids name
  passed m = let (i, o) = later.0 m in (inr i, o)

  kept : IsOrphan ids x → In name (x ∷ orphans_among ids xs) → In name (x ∷ xs) × IsOrphan ids name
  kept orphan (inl e) = (inl e, subst (IsOrphan ids) e orphan)
  kept orphan (inr m) = passed m

  keeps : In name (x ∷ xs) × IsOrphan ids name → In name (x ∷ orphans_among ids xs)
  keeps (inl e, o) = inl e
  keeps (inr m, o) = inr (later.1 (m, o))

  orphans_step : In name (orphans_among ids (x ∷ xs)) ↔ (In name (x ∷ xs) × IsOrphan ids name)
  unfolding orphans_among
  orphans_step = elim (Bool-cases (starts_with x instance_prefix)) [
    | inr h ↦ (
      λ m. passed (rw h at m),
      λ m. rw h (skipped (λ o. both_ways _ (tests_of-IsOrphan ids x o).0 h) m),
    )
    | inl h ↦ elim (Bool-cases (listed ids (instance_id x))) [
      | inl k ↦ (
        λ m. passed (rw (h, k) at m),
        λ m. rw (h, k) (skipped (λ o. both_ways _ k (tests_of-IsOrphan ids x o).1) m),
      )
      | inr k ↦ (λ m. kept (IsOrphan-of_tests ids x h k) (rw (h, k) at m), λ m. rw (h, k) (keeps m))
    ]
  ]

-- A name is reported as an orphan exactly when the director lists it and it is the name of the
-- deployment of an instance that is not listed.
pub orphans_among_iff :
    (instance_ids names : List String) (name : String)
    → In name (orphans_among instance_ids names) ↔ (In name names × IsOrphan instance_ids name)
unfolding orphans_among
orphans_among_iff ids [] name = (λ h. absurd h, λ h. absurd h.0)
orphans_among_iff ids (x ∷ xs) name = orphans_step ids x name xs (orphans_among_iff ids xs name)
