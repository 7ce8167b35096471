-- ===== src/IteratorState/Tally.antt =====
-- Counting the entries of the iterator's state (instanceiterator/iterator_state.go).
use mathlib.Core.Logic.{◌≢◌}
use on_demand_service_broker.Prelude.{
  ℕ, suc, ◌+◌, ◌≡◌, refl, ap, ◌∙◌, ◌⊎◌, inl, inr, Bool-cases, Bool, true, false, ◌==◌, length,
  length-append, All, Option-cases, some, none, List, [], ◌∷◌, String, arith,
}
use on_demand_service_broker.Prelude.Dict.{Dict, lookup, insert, keys, Distinct, lookup_own}
use on_demand_service_broker.IteratorState.Data.{
  OperationState, accepted, pending, InstanceInfo, IteratorState, info_of, unset, state_eq,
}
use on_demand_service_broker.IteratorState.Queries.{
  in_states, left_out, phase_in_states, collect, get_instances_in_states, processable,
}

-- The sum of the weights of the entries.
abbrev pub tally : (InstanceInfo → ℕ) → Dict InstanceInfo → ℕ
tally weight [] = 0
tally weight ((_, info) ∷ m) = weight info + tally weight m

-- Rewriting an entry changes the sum by its own weight.
pub tally-insert :
    (weight : InstanceInfo → ℕ) (guid : String) (new old : InstanceInfo) (m : Dict InstanceInfo)
    → lookup guid m ≡ some old
    → tally weight (insert guid new m) + weight old ≡ tally weight m + weight new
unfolding lookup insert
tally-insert weight guid new old [] h = cc
tally-insert weight guid new old ((j, info) ∷ m) h = elim (Bool-cases (j == guid)) [
  | inl hit ↦ let same : info ≡ old = ground arith in rw (hit, same) (omega arith)
  | inr miss ↦ rw miss (omega (arith, tally-insert weight guid new old m (ground arith)))
]

-- How often GetInstancesInStates lists an instance.
abbrev pub hits : Bool → List OperationState → InstanceInfo → ℕ
hits canaries sts info = length (phase_in_states canaries "" info sts)

length-in_states :
    (guid other : String) (info : InstanceInfo) (sts : List OperationState)
    → length (in_states guid info sts) ≡ length (in_states other info sts)
length-in_states guid other info [] = refl
length-in_states guid other info (st ∷ sts) = elim (Bool-cases (state_eq info.status st)) [
  | inl e ↦ rw e (ap suc (length-in_states guid other info sts))
  | inr e ↦ rw e (length-in_states guid other info sts)
]

length-phase_in_states :
    (canaries : Bool) (guid : String) (info : InstanceInfo) (sts : List OperationState)
    → length (phase_in_states canaries guid info sts) ≡ hits canaries sts info
length-phase_in_states canaries guid info sts = elim (Bool-cases (left_out canaries info)) [
  | inl e ↦ rw e
  | inr e ↦ rw e (length-in_states guid "" info sts)
]

length-collect :
    (states : Dict InstanceInfo) (canaries : Bool) (sts : List OperationState)
    (m : Dict InstanceInfo)
    → All (λ e. lookup e.0 states ≡ some e.1) m
    → length (collect states canaries sts (keys m)) ≡ tally (hits canaries sts) m
unfolding collect info_of
length-collect states canaries sts [] h = refl
length-collect states canaries sts ((k, info) ∷ m) h = rw h.0 (
    length-append (phase_in_states canaries k info sts) (collect states canaries sts (keys m))
    ∙ omega (
      arith,
      length-phase_in_states canaries k info sts,
      length-collect states canaries sts m h.1,
    ))

-- The list of guids is that of the keys, and has no guid twice.
pub record IsOrdered (s : IteratorState) : Type 0 where
  pub listed : keys s.states ≡ s.guids
  pub distinct : Distinct s.guids

-- Then the number of instances in given states is a sum over the entries.
pub length-get_instances_in_states :
    (s : IteratorState) (sts : List OperationState)
    → IsOrdered s
    → length (get_instances_in_states s sts) ≡ tally (hits s.process_canaries sts) s.states
unfolding get_instances_in_states
length-get_instances_in_states s sts o = rw (← o.listed) (
    length-collect s.states s.process_canaries sts s.states
      (lookup_own s.states (rw (← o.listed) at o.distinct)))

-- An entry that NextPending stops at is there, pending and in the phase.
pub record Found (s : IteratorState) (guid : String) : Type 0 where
  pub info : InstanceInfo
  pub there : lookup guid s.states ≡ some info
  pub is_pending : info.status ≡ pending
  pub in_phase : left_out s.process_canaries info ≡ false

pub processable-Found :
    (s : IteratorState) (guid : String) → processable s guid ≡ true → Found s guid
unfolding processable info_of
processable-Found s guid h = elim (Option-cases (lookup guid s.states)) [
  | inl e ↦ absurd (bad e)
  | inr (info, e) ↦ record {
    info = info;
    there = e;
    is_pending = ground arith;
    in_phase = ground arith;
  }
]
  where
    bad : lookup guid s.states ≡ none → ⊥
    bad e = ground arith

pub info_of-there :
    (states : Dict InstanceInfo) (guid : String)
    → (info_of states guid).status ≢ unset
    → lookup guid states ≡ some (info_of states guid)
unfolding info_of
info_of-there states guid h = elim (Option-cases (lookup guid states)) [
  | inl e ↦ absurd (h (rw e))
  | inr (info, e) ↦ rw e
]

-- GetInstancesInStates for the instances in progress lists one or leaves it out.
pub phase_accepted-cases :
    (canaries : Bool) (guid : String) (info : InstanceInfo)
    → (phase_in_states canaries guid info (accepted ∷ []) ≡ [])
      ⊎ ((info.status ≡ accepted)
          × (phase_in_states canaries guid info (accepted ∷ [])
              ≡ record { guid = guid; plan_unique_id = info.initial_plan; space_guid = "" } ∷ []))
phase_accepted-cases canaries guid info = elim (Bool-cases (left_out canaries info)) [
  | inl e ↦ inl (rw e)
  | inr e ↦ elim (Bool-cases (state_eq info.status accepted)) [
    | inr miss ↦ inl (rw (e, miss))
    | inl hit ↦ inr (accepted_of info.status hit, rw (e, hit))
  ]
]
  where
    accepted_of : (st : OperationState) → state_eq st accepted ≡ true → st ≡ accepted
    accepted_of st h = ground arith
