-- ===== src/Tests/Finishing.antt =====
-- instanceiterator/iterator.go on three instances whose operations all succeed.
use on_demand_service_broker.Prelude.{
  ◌+◌, ◌≤◌, ◌≡◌, refl, true, false, [], Option, none, ◌⊎◌, ◌≢◌, some, arith,
}
use on_demand_service_broker.IteratorState.Data.{
  accepted, failed, succeeded, pending, IteratorState,
}
use on_demand_service_broker.IteratorState.Queries.{
  has_instances_to_process, has_failures, all_completed,
}
use on_demand_service_broker.IteratorState.Tally.{IsOrdered}
use on_demand_service_broker.Iterator.Data.{Env, Run, IteratorError, replied}
use on_demand_service_broker.Iterator.Loops.{iterate_instances_with_attempts}
use on_demand_service_broker.Iterator.Measure.{Settles}
use on_demand_service_broker.Iterator.Ends.{enough, iterate_instances_with_attempts_ends}
use on_demand_service_broker.Iterator.TriggerRule.{Triggers}
use on_demand_service_broker.Iterator.Honest.{IsHonest}
use on_demand_service_broker.Iterator.Outcome.{iterate_instances_with_attempts_outcome}
use on_demand_service_broker.Tests.Iterating.{
  busy_first, one_at_once, operation_in, state_of, run_of, guids-Distinct,
}

abbrev smooth : Env (Unit {0})
smooth = record busy_first { trigger = λ _ w. (replied (operation_in accepted), w) }

-- No check finds an operation in progress.
smooth-Settles : Settles smooth (λ _. 0)
smooth-Settles = record {
  lists = λ f w. omega arith;
  triggers = λ i w. omega arith;
  checks = λ g d w. omega arith;
  trigger_settles = λ i w w' op e p. cc;
  check_settles = λ g d w w' op e p. cc;
}

abbrev fresh : IteratorState
fresh = state_of pending succeeded pending false false

fresh-IsOrdered : IsOrdered fresh
fresh-IsOrdered = record { listed = refl; distinct = guids-Distinct }

fuel_enough : enough 2 3 0 + 1 ≤ 13
fuel_enough = omega arith

iterate_instances_with_attempts_ends_example :
    (e : Option IteratorError) × (r' : Run (Unit {0})) × (iterate_instances_with_attempts smooth
        one_at_once 13
        (run_of fresh)
      ≡ some (e, r'))
    × (has_instances_to_process r'.state ≡ false)
    × (r'.state.guids ≡ fresh.guids)
iterate_instances_with_attempts_ends_example =
    iterate_instances_with_attempts_ends (λ _. 0) smooth smooth-Settles one_at_once refl 13 1
      (run_of fresh) fresh-IsOrdered refl refl fuel_enough

fresh-IsHonest : IsHonest fresh []
fresh-IsHonest = record {
  ordered = fresh-IsOrdered;
  main = refl;
  recorded = λ _. ((λ e. cc), ((λ e. cc), ((λ e. cc), tt)));
}

smooth-Triggers : Triggers smooth (λ state. state ≢ failed)
smooth-Triggers i w w' op e p = cc

iterate_instances_with_attempts_outcome_example :
    (e : Option IteratorError) × (r' : Run (Unit {0})) × (iterate_instances_with_attempts smooth
        one_at_once 13
        (run_of fresh)
      ≡ some (e, r'))
    × ((e ≢ none) ⊎ ((all_completed r'.state ≡ true) × (has_failures r'.state ≡ false)))
iterate_instances_with_attempts_outcome_example =
    iterate_instances_with_attempts_outcome smooth one_at_once smooth-Triggers (λ _. 0)
      smooth-Settles 13 1 (run_of fresh) refl refl fresh-IsHonest fuel_enough
