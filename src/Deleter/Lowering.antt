-- ===== src/Deleter/Lowering.antt =====
-- Calls that do not raise a number of the world, for the loops of deleter/deleter.go.
use on_demand_service_broker.Prelude.{
  ℕ, ◌≤◌, Bool, true, false, Error, Result, Io, ◌>>=◌, try, arith, if◌then◌else◌,
}
use on_demand_service_broker.Prelude.Worlds.{next_leaves, follow_leaves}

-- A call that does not raise a number of the world.
pub record Lowers {W A : Type 0} (m : W → ℕ) (call : Io W A) : Type 0 where
  pub at : (w : W) → m (call w).1 ≤ m w

module _ {W : Type 0} {m : W → ℕ} where
  pub Lowers-next :
      {A B : Type 0} {call : Io W A} {f : A → Io W B}
      → Lowers m call
      → ((a : A) → Lowers m (f a))
      → Lowers m (call >>= f)
  Lowers-next {call} {f} l k = record {
    at = λ w.
        next_leaves (λ v. m v ≤ m w) (λ v. m v ≤ m w) (call w) f (l.at w) (λ _ e. e)
          (λ a _ e. omega (arith, e, (k a).at (call w).1));
  }

  pub Lowers-try :
      {A B : Type 0} {call : Io W A} {h : Error → Io W B} {f : A → Io W B}
      → Lowers m call
      → ((e : Error) → Lowers m (h e))
      → ((a : A) → Lowers m (f a))
      → Lowers m (try call h f)
  Lowers-try {call} {h} {f} l j k = record {
    at = λ w.
        follow_leaves (λ v. m v ≤ m w) (λ v. m v ≤ m w) (call w) h f (l.at w) (λ _ e. e)
          (λ x v e. omega (arith, e, (j x).at v)) (λ a _ e. omega (arith, e, (k a).at (call w).1));
  }

  pub Lowers-if :
      {A : Type 0} (b : Bool) {call other : Io W A}
      → Lowers m call
      → Lowers m other
      → Lowers m (if b then call else other)
  Lowers-if true l k = l
  Lowers-if false l k = k

  pub Lowers-still : {A : Type 0} {r : Result A} → Lowers {W = W} m (λ w. (r, w))
  Lowers-still = record { at = λ w. omega arith }
