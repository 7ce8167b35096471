-- ===== src/Prelude/Answers.antt =====
-- What a chain of calls answers where it succeeds, from what each call answers.
use mathlib.Core.Bool.{Bool, true, false}
use mathlib.Core.Path.{◌≡◌, refl, subst}
use on_demand_service_broker.Prelude.Tests.{if◌then◌else◌}
use on_demand_service_broker.Prelude.Errors.{Error, Result, ok, err, panic, Io, next, follow}

-- The answer, if there is one.
abbrev pub Gives {ℓ} : {W : Type 0} {A : Type ℓ} → (A → Type 0) → Result A × W → Type 0
Gives Q (ok a, w) = Q a
Gives Q (err e, w) = Unit
Gives Q (panic, w) = Unit

module _ {ℓ κ} {W : Type 0} {A : Type ℓ} {B : Type κ} (Q : B → Type 0) where
  pub next-Gives :
      (r : Result A × W) (f : A → Io W B)
      → ((a : A) → r.0 ≡ ok a → Gives Q (f a r.1))
      → Gives Q (next f r)
  next-Gives (ok a, w) f go = go a refl
  next-Gives (err e, w) f go = tt
  next-Gives (panic, w) f go = tt

  pub follow-Gives :
      (r : Result A × W) (h : Error → Io W B) (f : A → Io W B)
      → ((e : Error) (w : W) → Gives Q (h e w))
      → ((a : A) → r.0 ≡ ok a → Gives Q (f a r.1))
      → Gives Q (follow h f r)
  follow-Gives (ok a, w) h f handle go = go a refl
  follow-Gives (err e, w) h f handle go = handle e w
  follow-Gives (panic, w) h f handle go = tt

module _ {ℓ} {W : Type 0} {A : Type ℓ} (Q : A → Type 0) where
  pub given : (r : Result A × W) (a : A) (w : W) → Gives Q r → r ≡ (ok a, w) → Q a
  given r a w g e = subst (Gives Q) e g

  -- An answer that is passed on.
  pub passes : (r : Result A × W) → Gives Q r → (a : A) → r.0 ≡ ok a → Q a
  passes (ok x, w) g a e = subst (λ r. Gives Q (r, w)) e g
  passes (err x, w) g a e = cc
  passes (panic, w) g a e = cc

-- The answer, if there is one, with the world after it.
abbrev pub Ends {ℓ} : {W : Type 0} {A : Type ℓ} → (A → W → Type 0) → Result A × W → Type 0
Ends Q (ok a, w) = Q a w
Ends Q (err e, w) = Unit
Ends Q (panic, w) = Unit

module _ {ℓ κ} {W : Type 0} {A : Type ℓ} {B : Type κ} (Q : B → W → Type 0) where
  pub next-Ends :
      (r : Result A × W) (f : A → Io W B)
      → ((a : A) (w : W) → r ≡ (ok a, w) → Ends Q (f a w))
      → Ends Q (next f r)
  next-Ends (ok a, w) f go = go a w refl
  next-Ends (err e, w) f go = tt
  next-Ends (panic, w) f go = tt

  pub follow-Ends :
      (r : Result A × W) (h : Error → Io W B) (f : A → Io W B)
      → ((e : Error) (w : W) → Ends Q (h e w))
      → ((a : A) (w : W) → r ≡ (ok a, w) → Ends Q (f a w))
      → Ends Q (follow h f r)
  follow-Ends (ok a, w) h f handle go = go a w refl
  follow-Ends (err e, w) h f handle go = handle e w
  follow-Ends (panic, w) h f handle go = tt

pub if-Ends {ℓ} :
    {W : Type 0} {B : Type ℓ} (Q : B → W → Type 0) (t : Bool) (m n : Io W B) (w : W)
    → Ends Q (m w)
    → Ends Q (n w)
    → Ends Q ((if t then m else n) w)
if-Ends Q true m n w yes_ends no_ends = yes_ends
if-Ends Q false m n w yes_ends no_ends = no_ends

-- What holds of the end reached.
pub reached {ℓ} :
    {W : Type 0} {A : Type ℓ} (Q : A → W → Type 0) (r : Result A × W) (a : A) (w : W)
    → Ends Q r
    → r ≡ (ok a, w)
    → Q a w
reached Q r a w h e = subst (Ends Q) e h

-- The error, if there is one.
abbrev pub Refuses {ℓ} : {W : Type 0} {A : Type ℓ} → (Error → Type 0) → Result A × W → Type 0
Refuses Q (ok a, w) = Unit
Refuses Q (err e, w) = Q e
Refuses Q (panic, w) = Unit

module _ {ℓ κ} {W : Type 0} {A : Type ℓ} {B : Type κ} (Q : Error → Type 0) where
  pub next-Refuses :
      (r : Result A × W) (f : A → Io W B)
      → Refuses Q r
      → ((a : A) (w : W) → Refuses Q (f a w))
      → Refuses Q (next f r)
  next-Refuses (ok a, w) f q go = go a w
  next-Refuses (err e, w) f q go = q
  next-Refuses (panic, w) f q go = tt

  pub follow-Refuses :
      (r : Result A × W) (h : Error → Io W B) (f : A → Io W B)
      → ((e : Error) (w : W) → Refuses Q (h e w))
      → ((a : A) (w : W) → Refuses Q (f a w))
      → Refuses Q (follow h f r)
  follow-Refuses (ok a, w) h f handle go = go a w
  follow-Refuses (err e, w) h f handle go = handle e w
  follow-Refuses (panic, w) h f handle go = tt
