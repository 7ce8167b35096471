-- ===== src/Prelude/Worlds.antt =====
-- What a chain of calls leaves of the world, from what each call leaves of it: one rule for each way
-- to chain calls.
use Prim.Native.Nat.{ℕ}
use mathlib.Core.Bool.{Bool, true, false}
use mathlib.Core.Path.{◌≡◌, refl, ◌∙◌}
use on_demand_service_broker.Prelude.Errors.{
  Error, Result, ok, err, panic, Io, next, follow, ◌>>=◌, try,
}
use on_demand_service_broker.Prelude.Tests.{if◌then◌else◌}

module _ {ℓ κ} {W : Type 0} {A : Type ℓ} {B : Type κ} (P R : W → Type 0) where
  -- The world after a call that may be followed by another.
  pub next_leaves :
      (r : Result A × W) (f : A → Io W B)
      → P r.1
      → ((w : W) → P w → R w)
      → ((a : A) → r.0 ≡ ok a → P r.1 → R (f a r.1).1)
      → R (next f r).1
  next_leaves (ok a, w) f p stop go = go a refl p
  next_leaves (err e, w) f p stop go = stop w p
  next_leaves (panic, w) f p stop go = stop w p

  pub follow_leaves :
      (r : Result A × W) (h : Error → Io W B) (f : A → Io W B)
      → P r.1
      → ((w : W) → P w → R w)
      → ((e : Error) (w : W) → P w → R (h e w).1)
      → ((a : A) → r.0 ≡ ok a → P r.1 → R (f a r.1).1)
      → R (follow h f r).1
  follow_leaves (ok a, w) h f p stop handle go = go a refl p
  follow_leaves (err e, w) h f p stop handle go = handle e w p
  follow_leaves (panic, w) h f p stop handle go = stop w p

-- A call that leaves a number of the world as it is, with the rules for the chains of such calls.
pub record Keeps {ℓ} {W : Type 0} {A : Type ℓ} (count : W → ℕ) (m : Io W A) : Type ℓ where
  pub at : (w : W) → count (m w).1 ≡ count w

module _ {W : Type 0} (count : W → ℕ) where
  pub Keeps-still {ℓ} : {A : Type ℓ} (r : Result A) → Keeps count (λ w. (r, w))
  Keeps-still r = record { at = λ w. refl }

module _ {W : Type 0} {count : W → ℕ} where
  pub Keeps-next {ℓ κ} :
      {A : Type ℓ} {B : Type κ} {m : Io W A} {f : A → Io W B}
      → Keeps count m
      → ((a : A) → Keeps count (f a))
      → Keeps count (m >>= f)
  Keeps-next {m} {f} km kf = record {
    at = λ w.
        next_leaves (λ v. count v ≡ count w) (λ v. count v ≡ count w) (m w) f (km.at w) (λ _ e. e)
          (λ a _ e. (kf a).at _ ∙ e);
  }

  pub Keeps-try {ℓ κ} :
      {A : Type ℓ} {B : Type κ} {m : Io W A} {h : Error → Io W B} {f : A → Io W B}
      → Keeps count m
      → ((e : Error) → Keeps count (h e))
      → ((a : A) → Keeps count (f a))
      → Keeps count (try m h f)
  Keeps-try {m} {h} {f} km kh kf = record {
    at = λ w.
        follow_leaves (λ v. count v ≡ count w) (λ v. count v ≡ count w) (m w) h f (km.at w)
          (λ _ e. e) (λ x v e. (kh x).at v ∙ e) (λ a _ e. (kf a).at _ ∙ e);
  }

  pub Keeps-if {ℓ} :
      {A : Type ℓ} (b : Bool) {m n : Io W A}
      → Keeps count m
      → Keeps count n
      → Keeps count (if b then m else n)
  Keeps-if true km kn = km
  Keeps-if false km kn = kn
