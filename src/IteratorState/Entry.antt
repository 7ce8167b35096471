-- ===== src/IteratorState/Entry.antt =====
-- What set_state and set_operation (instanceiterator/iterator_state.go) do to an entry that is there.
use on_demand_service_broker.Prelude.{ℕ, ◌+◌, ◌≡◌, refl, ◌∙◌, some, String, eq_refl}
use on_demand_service_broker.Prelude.Dict.{lookup, insert, keys-insert, lookup-insert}
use on_demand_service_broker.IteratorState.Data.{
  OperationState, InstanceInfo, TriggeredOperation, IteratorState, info_of,
}
use on_demand_service_broker.IteratorState.Updates.{set_state, set_operation}
use on_demand_service_broker.IteratorState.Tally.{tally, tally-insert, IsOrdered}

module _ (s : IteratorState) (guid : String) (info : InstanceInfo)
    (there : lookup guid s.states ≡ some info) where
  info_of-some : info_of s.states guid ≡ info
  unfolding info_of
  info_of-some = rw there

  insert-IsOrdered :
      (new : InstanceInfo)
      → IsOrdered s
      → IsOrdered (record s { states = insert guid new s.states })
  insert-IsOrdered new o = record {
    listed = keys-insert guid new info s.states there ∙ o.listed;
    distinct = o.distinct;
  }

  pub set_state-IsOrdered :
      (state : OperationState) → IsOrdered s → IsOrdered (set_state guid state s)
  unfolding set_state
  set_state-IsOrdered state o = insert-IsOrdered _ o

  pub set_operation-IsOrdered :
      (op : TriggeredOperation) → IsOrdered s → IsOrdered (set_operation guid op s)
  unfolding set_operation
  set_operation-IsOrdered op o = insert-IsOrdered _ o

  pub tally-set_state :
      (weight : InstanceInfo → ℕ) (state : OperationState)
      → tally weight (set_state guid state s).states + weight info
        ≡ tally weight s.states + weight (record info { status = state })
  unfolding set_state
  tally-set_state weight state =
      rw info_of-some
        (tally-insert weight guid (record info { status = state }) info s.states there)

  pub tally-set_operation :
      (weight : InstanceInfo → ℕ) (op : TriggeredOperation)
      → tally weight (set_operation guid op s).states + weight info
        ≡ tally weight s.states + weight (record info { operation = op })
  unfolding set_operation
  tally-set_operation weight op =
      rw info_of-some
        (tally-insert weight guid (record info { operation = op }) info s.states there)

  pub lookup-set_operation :
      (op : TriggeredOperation)
      → lookup guid (set_operation guid op s).states ≡ some (record info { operation = op })
  unfolding set_operation
  lookup-set_operation op =
      rw info_of-some
        (lookup-insert guid guid (record info { operation = op }) s.states ∙ rw (eq_refl guid) refl)
