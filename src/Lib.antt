-- ===== src/Lib.antt =====
-- The on-demand service broker: a model of its core, with theorems.
--
-- The broker is a Go program that offers BOSH deployments as service instances to Cloud Foundry.
-- The platform calls its operations; each looks at the catalog and the quotas, starts a task of the
-- BOSH director, and hands the platform the data of the operation, with which the platform asks
-- later how far it is. Errands of the operator go over all instances to upgrade or recreate them.
--
-- Parts and files:
-- - Prelude: the names of the libraries, Boolean tests, lists measured by native numbers, a Go map
--   as an association list (Prelude/Dict), a signed difference (Prelude/Int), errors, results that
--   may panic and calls on a world (Prelude/Errors), rules for what a chain of calls leaves in the
--   world (Prelude/Worlds) and for what it answers (Prelude/Answers).
-- - Json: decoded JSON; Json/Laws has its look-up after an assignment. Config: plans, errands and
--   quotas of config/config.go, and what goes to the adapter. OperationData: broker/broker.go.
-- - Decider: broker/decider/decider.go. CanProvision is `can_provision`, DecideOperation is
--   `decide_operation`; the helpers keep their names. Decider/Validation, Verdict and Laws
--   prove.
-- - Quotas: broker/quotas.go. checkQuotas is `check_quotas`. Quotas/Usage, Checks and Laws prove.
-- - IteratorState: instanceiterator/iterator_state.go. The map `states` is a `Dict`, the slice
--   `guids` a list; IteratorState/Data has NewIteratorState, Queries and Updates the methods,
--   Tally and Entry the lemmas on counts and entries.
-- - Iterator: instanceiterator/iterator.go. BrokerServices and Triggerer are the record `Env` of
--   calls on a world; the calls of the listener and the sleeper are collected as events.
--   Iterator/Steps has triggerOperation and pollRunningTasks, Loops has
--   IterateInstancesWithAttempts, Whole has Iterate. TriggerRule and PollRule are rules for the two
--   loops. The other modules hold the theorems: Running and InFlight on the operations in progress,
--   Frame on the instances left alone, Livelock on the canary phase, Measure, Closing, Polling, Place,
--   Progress, Waiting and Ends on the end of the main phase, Honest and Outcome on its result.
-- - Configurator: instanceiterator/configurator.go, which makes the iterator's `Settings`;
--   Configurator/Bounds proves.
-- - Bosh: boshdirector/task.go and the client's calls. Lifecycle: broker/lifecycle_runner.go, whose
--   GetTask is `get_task`. Lifecycle/Polls, Lifecycle/Script and Lifecycle/PostDeploy prove.
-- - Triggerers: instanceiterator/bosh_triggerer.go, instanceiterator/cf_triggerer.go and
--   ExtractOperationFrom of broker/services/response_converter.go; Triggerers/States proves.
-- - Broker: the clients' calls as a record, and the errors (broker/broker.go, broker/errors.go).
--   Broker/LastOperation and Broker/Deprovision have the operations of broker/last_operation.go and
--   broker/deprovision.go; LastOperation/Early, Deprovision/Commands and
--   Deprovision/Handover prove.
-- - Broker/Clients: the rest of the clients, for the operations below. Broker/Catalog:
--   broker/catalog.go and broker/schema.go, with Services as `services`. Broker/Uaa:
--   broker/service_instance_client.go. Broker/Provision: broker/provision.go and
--   broker/broker_helpers.go. Broker/Upgrade: broker/upgrade.go and broker/recreate.go, with
--   handleUpdateError. Broker/Update: broker/update.go. Broker/Binding: broker/bind.go and
--   broker/unbind.go. Broker/Orphans: broker/orphan_deployments.go and broker/instances.go. An
--   operation keeps its name, but Upgrade is `upgrade_instance` and Recreate `recreate_instance`;
--   what follows a call in the source is a definition of its own where lemmas speak of it. Their
--   child modules prove.
-- - Task: task/task.go, whose Deployer is the record of the calls that it makes; Task/Manifests:
--   task/manifest_comparator.go; Task/Generator: task/manifest_generator.go. Task/Starting, Idle, Pending and
--   Plain prove. The broker calls the deployer through `DeployerClient` of Broker/Clients.
-- - Deleter: deleter/deleter.go, purger/purger.go and registrar/deregistrar.go. Deleter/Waiting, Ends
--   and Purge prove.
-- - MgmtApi: mgmtapi/api.go, the API that the iterator's triggers call; MgmtApi/Metrics: its handler
--   of metrics, and mgmtapi/metrics.go.
--   MgmtApi/Upgrading takes a trigger through it, the broker and the deployer; Usage and Reported are
--   on the metrics.
-- - Director: the client of the BOSH director, boshdirector/get_tasks.go and the files around it, over
--   the calls of the BOSH CLI library; `bosh_client` is what Lifecycle takes. Director/Tasks,
--   Director/Links and Director/Errands prove.
-- - Tests: runs on small inputs.
--
-- Fuel: the loop over the instances in progress (`process_loop`) may run without end, as an
-- operation may stay in progress without end; it takes fuel, and `none` means that the fuel ran out.
-- `enough` of Iterator/Ends is the fuel that suffices for the main phase: twice the number of
-- instances for each attempt, and the number of polls that find an operation in progress.
-- The loop that waits for the deletion of an instance (`poll_loop`) takes fuel in the same way; what
-- suffices is one more than a bound on the answers that leave the deletion undecided.
-- All other loops are structural.
--
-- Numbers: limits, counts and task numbers are natural numbers far below 2^63; where the code
-- subtracts, the difference is an integer. The configured numbers of the iterator are integers, and
-- its durations wrap round at 2^63 nanoseconds.
--
-- Not modelled: the network clients of Cloud Foundry, UAA and CredHub, the HTTP server,
-- logging, telemetry and start-up, which are input and output; the libraries. `MaintenanceInfo.Equals`
-- (brokerapi), the validation of JSON schemas, the decoding of JSON and YAML, and the service
-- adapter with its types are parameters. Locks are not modelled: an operation holds its lock from
-- its first call to its last, except that Update takes it after the decision.
pub mod Prelude
pub mod Json
pub mod Config
pub mod OperationData
pub mod Decider
pub mod Quotas
pub mod IteratorState
pub mod Iterator
pub mod Triggerers
pub mod Bosh
pub mod Lifecycle
pub mod Broker
pub mod Task
pub mod Deleter
pub mod MgmtApi
pub mod Director
pub mod Configurator
pub mod Tests
