-- ===== src/Iterator/Place.antt =====
-- The place of the loop of triggerOperation (instanceiterator/iterator.go) in the main phase, and what
-- is to gain from it on.
use mathlib.Core.Logic.{◌≢◌}
use on_demand_service_broker.Prelude.{
  ℕ, ◌+◌, ◌≤◌, ◌≡◌, refl, ap, ◌∙◌, inl, inr, Bool-cases, Bool, true, false, ◌&&◌, List, [], ◌∷◌,
  ◌++◌, length, length-append, String, All, All-append, if◌then◌else◌, arith,
}
use on_demand_service_broker.Prelude.Dict.{Dict}
use on_demand_service_broker.IteratorState.Data.{
  OperationState, pending, InstanceInfo, IteratorState, info_of, state_eq,
}
use on_demand_service_broker.IteratorState.Queries.{processable}
use on_demand_service_broker.IteratorState.Tally.{IsOrdered}
use on_demand_service_broker.Iterator.Measure.{status_of}
use on_demand_service_broker.Iterator.Closing.{Closes}

-- The main phase, with the guids before the position, none of them pending, and those from it on.
pub record IsAt (done todo : List String) (s : IteratorState) : Type 0 where
  pub split : s.guids ≡ done ++ todo
  pub place : s.position ≡ length done
  pub passed : All (λ g. status_of s g ≢ pending) done
  pub ordered : IsOrdered s
  pub main : s.process_canaries ≡ false

-- 1 if more is to be triggered and one of the guids is pending.
abbrev pub gain : Bool → Dict InstanceInfo → List String → ℕ
unfolding info_of
gain more states [] = 0
gain more states (guid ∷ guids) =
    if more && state_eq (info_of states guid).status pending then 1 else gain more states guids

gain_none : (states : Dict InstanceInfo) (guids : List String) → gain false states guids ≡ 0
unfolding info_of
gain_none states [] = refl
gain_none states (guid ∷ guids) = gain_none states guids

pub stays :
    (m : ℕ) (more : Bool) (states : Dict InstanceInfo) (guids : List String)
    → more ≡ false
    → m + gain more states guids ≤ m
stays m true states guids h = cc
stays m false states guids h = omega (arith, gain_none states guids)

pub gain_skips :
    (more : Bool) (states : Dict InstanceInfo) (guid : String) (guids : List String)
    → state_eq (info_of states guid).status pending ≡ false
    → gain more states (guid ∷ guids) ≡ gain more states guids
unfolding info_of
gain_skips true states guid guids h = rw h refl
gain_skips false states guid guids h = refl

pub gain_bound :
    (more : Bool) (states : Dict InstanceInfo) (guids : List String) → gain more states guids ≤ 1
unfolding info_of
gain_bound more states [] = omega arith
gain_bound more states (guid ∷ guids) =
    elim (Bool-cases (more && state_eq (info_of states guid).status pending)) [
      | inl e ↦ rw e (omega arith)
      | inr e ↦ rw e (gain_bound more states guids)
    ]

pub processable_main :
    (s : IteratorState) (guid : String)
    → s.process_canaries ≡ false
    → processable s guid ≡ state_eq (status_of s guid) pending
unfolding processable info_of
processable_main s guid h = rw h refl

pub not_pending : (state : OperationState) → state_eq state pending ≡ false → state ≢ pending
not_pending pending h e = ground arith
not_pending state h e = ground arith

append_one :
    (xs : List String) (y : String) (ys : List String) → xs ++ y ∷ ys ≡ (xs ++ y ∷ []) ++ ys
append_one [] y ys = refl
append_one (x ∷ xs) y ys = ap (λ zs. x ∷ zs) (append_one xs y ys)

module _ {W : Type 0} (rest : W → ℕ) where
  passed_kept :
      (by : ℕ) (s s' : IteratorState) (w w' : W) (guids : List String)
      → Closes rest by s s' w w'
      → All (λ g. status_of s g ≢ pending) guids
      → All (λ g. status_of s' g ≢ pending) guids
  passed_kept by s s' w w' [] c h = tt
  passed_kept by s s' w w' (guid ∷ guids) c h =
      (c.none_new guid h.0, passed_kept by s s' w w' guids c h.1)

  -- The place after a step that closes something elsewhere.
  pub IsAt-kept :
      (by : ℕ) (done todo : List String) (s s' : IteratorState) (w w' : W)
      → Closes rest by s s' w w'
      → IsAt done todo s
      → IsAt done todo s'
  IsAt-kept by done todo s s' w w' c a = record {
    split = c.guids ∙ a.split;
    place = c.position ∙ a.place;
    passed = passed_kept by s s' w w' done c a.passed;
    ordered = c.ordered a.ordered;
    main = c.phase ∙ a.main;
  }

  -- The place after a guid that is not pending any more.
  pub IsAt-next :
      (by : ℕ) (done : List String) (guid : String) (todo : List String) (s s' : IteratorState)
      (w w' : W)
      → IsAt done (guid ∷ todo) s
      → Closes rest by (record s { position = s.position + 1 }) s' w w'
      → status_of s' guid ≢ pending
      → IsAt (done ++ guid ∷ []) todo s'
  unfolding info_of
  IsAt-next by done guid todo s s' w w' a c closed = record {
    split = c.guids ∙ a.split ∙ append_one done guid todo;
    place = c.position ∙ rw (a.place, length-append done (guid ∷ [])) (omega arith);
    passed =
        All-append _ done (guid ∷ [])
          (passed_kept by (record s { position = s.position + 1 }) s' w w' done c a.passed)
          (closed, tt);
    ordered = c.ordered (record { listed = a.ordered.listed; distinct = a.ordered.distinct });
    main = c.phase ∙ a.main;
  }
