-- ===== src/Prelude/Dict.antt =====
-- A Go map with string keys, as an association list in order of insertion; iteration over the
-- map goes over the list. A key is inserted once.
use Prim.Native.String.{String}
use mathlib.Core.Path.{◌≡◌, refl, ap}
use mathlib.Core.Logic.{◌≢◌, inl, inr}
use mathlib.Core.List.{List, [], ◌∷◌}
use mathlib.Core.Option.{Option, none, some}
use native.Mathlib.Omega.{arith}
use text.Mathlib.Text.{◌==◌}
use text.Mathlib.TextEquality.{eq_iff}
use text.Mathlib.TextPositions.{eq_refl}
use on_demand_service_broker.Prelude.Tests.{if◌then◌else◌, Bool-cases}
use on_demand_service_broker.Prelude.Lists.{All}

abbrev pub Dict {ℓ} : Type ℓ → Type ℓ
Dict V = List (String × V)

module _ {ℓ} {V : Type ℓ} where
  -- The value under a key, `none` for a missing one.
  unfoldable pub lookup : String → Dict V → Option V
  lookup key [] = none
  lookup key (entry ∷ rest) = if entry.0 == key then some entry.1 else lookup key rest

  -- Assignment: in place where the key is there, else at the end.
  unfoldable pub insert : String → V → Dict V → Dict V
  insert key value [] = (key, value) ∷ []
  insert key value (entry ∷ rest) =
      let kept = insert key value rest in
      if entry.0 == key then (entry.0, value) ∷ rest else entry ∷ kept

  abbrev pub keys : Dict V → List String
  keys [] = []
  keys ((k, v) ∷ m) = k ∷ keys m

-- No two of the keys are equal.
abbrev pub Distinct : List String → Type 0
Distinct [] = Unit
Distinct (k ∷ ks) = All (λ j. k ≢ j) ks × Distinct ks

module _ {ℓ} {V : Type ℓ} where
  -- What a key reads after an assignment.
  pub lookup-insert :
      (key other : String) (value : V) (dict : Dict V)
      → lookup other (insert key value dict)
        ≡ (if key == other then some value else lookup other dict)
  unfolding lookup insert
  lookup-insert key other value [] = refl
  lookup-insert key other value (entry ∷ rest) =
      let later = lookup-insert key other value rest in
      elim (Bool-cases (entry.0 == key)) [
        | inr miss ↦
            ground (arith, miss, later, eq_iff key other, eq_iff entry.0 other, eq_iff entry.0 key)
        | inl hit ↦ (let same = (eq_iff entry.0 key).0 hit in ground (arith, hit, same))
      ]

  pub keys-insert :
      (k : String) (v old : V) (m : Dict V) → lookup k m ≡ some old → keys (insert k v m) ≡ keys m
  unfolding lookup insert
  keys-insert k v old [] h = cc
  keys-insert k v old ((j, w) ∷ m) h = elim (Bool-cases (j == k)) [
    | inl hit ↦ rw hit
    | inr miss ↦ rw miss (ap (λ ks. j ∷ ks) (keys-insert k v old m (ground arith)))
  ]

  -- Where the keys are distinct, each entry is what its key looks up.
  pub lookup_own : (m : Dict V) → Distinct (keys m) → All (λ e. lookup e.0 m ≡ some e.1) m
  unfolding lookup
  lookup_own [] d = tt
  lookup_own ((k, v) ∷ m) d = (simp eq_refl, later m d.0 (lookup_own m d.1))
    where
      later :
          (n : Dict V)
          → All (λ j. k ≢ j) (keys n)
          → All (λ e. lookup e.0 m ≡ some e.1) n
          → All (λ e. lookup e.0 ((k, v) ∷ m) ≡ some e.1) n
      later [] a h = tt
      later ((j, w) ∷ n) a h = (ground (arith, eq_iff k j, a.0, h.0), later n a.1 h.1)
