-- ===== src/Task/Manifests.antt =====
-- task/manifest_comparator.go: whether two manifests differ in more than their update blocks. A
-- manifest is decoded by the YAML library; the parts that the code does not name are kept as text.
use on_demand_service_broker.Prelude.{
  ◌≡◌, refl, ◌↔◌, eq_iff, Bool, true, false, ◌&&◌, ◌==◌, Option, none, some, List, [], ◌∷◌, String,
  Result, ok, err, panic, arith,
}

-- bosh.InstanceGroup and bosh.BoshManifest of the SDK.
pub record InstanceGroup : Type 0 where
  pub group_update : Option String
  pub group_rest : String

pub record BoshManifest : Type 0 where
  pub update : Option String
  pub instance_groups : List InstanceGroup
  pub rest : String

ignore_group_updates : List InstanceGroup → List InstanceGroup
ignore_group_updates [] = []
ignore_group_updates (g ∷ gs) = record g { group_update = none } ∷ ignore_group_updates gs

unfoldable pub ignore_update_block : BoshManifest → BoshManifest
unfolding ignore_group_updates
ignore_update_block m = record {
  update = none;
  instance_groups = ignore_group_updates m.instance_groups;
  rest = m.rest;
}

-- reflect.DeepEqual
same_texts : Option String → Option String → Bool
same_texts none none = true
same_texts (some a) (some b) = a == b
same_texts none (some b) = false
same_texts (some a) none = false

same_groups : List InstanceGroup → List InstanceGroup → Bool
unfolding same_texts
same_groups [] [] = true
same_groups (g ∷ gs) (h ∷ hs) =
    same_texts g.group_update h.group_update && (g.group_rest == h.group_rest && same_groups gs hs)
same_groups [] (h ∷ hs) = false
same_groups (g ∷ gs) [] = false

unfoldable pub deep_equal : BoshManifest → BoshManifest → Bool
unfolding same_texts same_groups
deep_equal m n =
    same_texts m.update n.update
    && (m.rest == n.rest && same_groups m.instance_groups n.instance_groups)

module _ {ℓ κ} {A : Type ℓ} {B : Type κ} where
  abbrev pub then_result : Result A → (A → Result B) → Result B
  then_result (ok a) f = f a
  then_result (err e) f = err e
  then_result panic f = panic

unfoldable pub manifests_are_the_same :
    (String → Result BoshManifest) → String → String → Result Bool
unfolding deep_equal ignore_update_block
manifests_are_the_same unmarshal generated old = then_result (unmarshal generated) λ regenerated.
    then_result (unmarshal old) λ bosh_manifest.
      ok (deep_equal (ignore_update_block regenerated) (ignore_update_block bosh_manifest))

-- The instance groups and the manifest that are left when the update blocks are forgotten.
abbrev group_rests : List InstanceGroup → List String
group_rests [] = []
group_rests (g ∷ gs) = g.group_rest ∷ group_rests gs

abbrev pub AgreeBesidesUpdates : BoshManifest → BoshManifest → Type 0
AgreeBesidesUpdates m n =
    (m.rest ≡ n.rest) × (group_rests m.instance_groups ≡ group_rests n.instance_groups)

same_groups_iff :
    (gs hs : List InstanceGroup)
    → (same_groups (ignore_group_updates gs) (ignore_group_updates hs) ≡ true)
      ↔ (group_rests gs ≡ group_rests hs)
unfolding same_groups same_texts ignore_group_updates
same_groups_iff [] [] = (λ _. refl, λ _. refl)
same_groups_iff [] (h ∷ hs) = (λ e. cc, λ e. cc)
same_groups_iff (g ∷ gs) [] = (λ e. cc, λ e. cc)
same_groups_iff (g ∷ gs) (h ∷ hs) =
    let more = same_groups_iff gs hs in
    (
      λ e. ground (arith, eq_iff g.group_rest h.group_rest, more.0),
      λ e. ground (arith, eq_iff g.group_rest h.group_rest, more.1),
    )

-- Two manifests count as the same exactly when they differ in their update blocks at most: in that of
-- the manifest and those of the instance groups.
pub deep_equal-ignore_update_block_iff :
    (m n : BoshManifest)
    → (deep_equal (ignore_update_block m) (ignore_update_block n) ≡ true) ↔ AgreeBesidesUpdates m n
unfolding deep_equal ignore_update_block same_texts
deep_equal-ignore_update_block_iff m n =
    let groups = same_groups_iff m.instance_groups n.instance_groups in
    (
      λ e. ground (arith, eq_iff m.rest n.rest, groups.0),
      λ e. ground (arith, eq_iff m.rest n.rest, groups.1),
    )
