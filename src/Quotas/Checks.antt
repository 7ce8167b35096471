-- ===== src/Quotas/Checks.antt =====
-- On a single check of broker/quotas.go, and on a list of them.
use on_demand_service_broker.Prelude.{
  ℕ, ◌+◌, ◌≤◌, ◌≡◌, refl, ◌↔◌, inl, inr, ltb, Bool-cases, Option-cases, Option, none, some, List,
  [], ◌∷◌, ◌++◌, String, arith,
}
use on_demand_service_broker.Quotas.{ExceededQuota, QuotaError, exceeded, reported, checked_if_set}

module _ {ℓ} {A : Type ℓ} where
  pub append-eq-nil_iff : (xs ys : List A) → (xs ++ ys ≡ []) ↔ ((xs ≡ []) × (ys ≡ []))
  append-eq-nil_iff [] ys = (λ h. (refl, h), λ h. h.1)
  append-eq-nil_iff (x ∷ xs) ys = (λ h. cc, λ h. cc (h.0))

  abbrev pub IfSet : (A → Type 0) → Option A → Type 0
  IfSet P none = Unit
  IfSet P (some a) = P a

  pub checked_if_set_lem :
      (check : A → Option QuotaError) (P : A → Type 0)
      → ((a : A) → (check a ≡ none) ↔ P a)
      → (o : Option A) → (checked_if_set check o ≡ []) ↔ IfSet P o
  checked_if_set_lem check P h none = (λ e. tt, λ u. refl)
  checked_if_set_lem check P h (some a) = elim (Option-cases (check a)) [
    | inl e ↦ rw (e, checked_if_set) (λ _. (h a).0 e, λ _. refl)
    | inr (x, e) ↦ rw (e, checked_if_set) (λ f. cc, λ p. cc (e, (h a).1 p))
  ]

pub exceeded_iff :
    (kind : String) (limit usage required : ℕ)
    → (exceeded kind limit usage required ≡ []) ↔ (usage + required ≤ limit)
unfolding exceeded
exceeded_iff kind limit usage required = elim (Bool-cases (ltb limit (usage + required))) [
  | inl e ↦ rw e (λ h. cc, λ h. ground arith)
  | inr e ↦ rw e (λ h. ground arith, λ h. refl)
]

pub reported_iff :
    (report : List ExceededQuota → QuotaError) (qs : List ExceededQuota)
    → (reported report qs ≡ none) ↔ (qs ≡ [])
unfolding reported
reported_iff report [] = (λ h. refl, λ h. refl)
reported_iff report (q ∷ qs) = (λ h. cc, λ h. cc)
