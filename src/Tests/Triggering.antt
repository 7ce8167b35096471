-- ===== src/Tests/Triggering.antt =====
-- The triggerers of instanceiterator/ on given answers.
use on_demand_service_broker.Prelude.{ℕ, ◌≡◌, refl, ◌↔◌, none, String, ok}
use on_demand_service_broker.IteratorState.Data.{
  failed, in_progress, Instance, TriggeredOperation, no_operation,
}
use on_demand_service_broker.Triggerers.{
  Response, BrokerServices, bosh_trigger_operation, CfClient, cf_trigger_operation,
}
use on_demand_service_broker.Triggerers.States.{
  IsBoshAnswer, bosh_trigger_operation_answers, cf_trigger_operation_failed_iff,
}

abbrev an_instance : Instance
an_instance = record { guid = "a"; plan_unique_id = "small"; space_guid = "" }

abbrev conflict : Response
conflict = record { status_code = 409; body = ""; as_operation_data = none; as_description = none }

abbrev services : BrokerServices ℕ
services = record {
  request = λ _ _ w. (ok conflict, w);
  last_operation = λ _ _ w. (ok (record { state = "failed"; description = "" }), w);
}

abbrev busy : TriggeredOperation
busy = record no_operation { state = in_progress }

conflict_run : bosh_trigger_operation services "upgrade" an_instance 7 ≡ (ok busy, 7)
unfolding bosh_trigger_operation
conflict_run = refl

bosh_trigger_operation_answers_example : IsBoshAnswer in_progress
bosh_trigger_operation_answers_example =
    bosh_trigger_operation_answers services "upgrade" an_instance 7 7 busy conflict_run

abbrev last_state : String
last_state = "failed"

abbrev client : CfClient ℕ ℕ
client = record {
  plan_maintenance_info = λ _ w. (ok 2, w);
  upgrade_service_instance = λ _ _ w. (ok "failed", w);
  last_operation_for_instance = λ _ w. (ok "failed", w);
}

cf_trigger_operation_failed_iff_example :
    (op : TriggeredOperation) × (cf_trigger_operation client an_instance 7 ≡ (ok op, 7))
    × ((op.state ≡ failed) ↔ (last_state ≡ "failed"))
cf_trigger_operation_failed_iff_example =
    cf_trigger_operation_failed_iff client an_instance 7 7 7 2 "failed" refl refl
