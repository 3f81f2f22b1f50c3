-- ===== src/Lib.antt =====
-- A model of the job platform of backend/app, with the theorems that make its job pipeline
-- correct.
--
-- The platform takes jobs from tenants, stores them in a relational database, announces them on
-- Kafka through an outbox table, and runs them in a worker. Jobs may depend on other jobs and may
-- be the steps of a saga. A write and the event that announces it are one transaction; here a
-- transaction is a function on one database value, and an exception is a result that carries no
-- database.
--
-- Which file models what:
-- Prelude: the names, tests and lemmas on lists and texts that the others share.
-- Store: the tables of backend/app/models (enums.py, job.py, outbox.py, saga.py,
-- job_dependency.py, audit.py) and the writes of repositories/outbox.py and repositories/audit.py.
-- Store.Table has SELECT and UPDATE, Store.Events the payloads of schemas/job_events.py.
-- DagPause: utils/dag_pause.py and the reads of repositories/job_dependency.py. DagPause.Walk and
-- DagPause.Ancestors are about the walk up the dependencies.
-- JobRepo: repositories/job.py (`update_status`, `claim_for_running`,
-- `promote_waiting_to_pending`, `cascade_cancel_blocked_children` and the others that write).
-- JobRepo.Targets, JobRepo.Cascade and JobRepo.Announce are about the cascade, JobRepo.Rows and
-- JobRepo.Claim about single rows.
-- JobService: services/job.py (`create_job`, `get_job`, `replay_job`, `resolve_incident`).
-- JobService.Create, JobService.Start and JobService.Inserted are about the first of these,
-- JobService.Replay about the others.
-- Queue: workers/queue.py, the sorted set of delayed jobs.
-- Run: `_run_job` of workers/dispatcher.py, from the claim to the settlement of one delivery.
-- Dispatch: `JobDispatcherConsumer` of workers/dispatcher.py, which hands each message to a task
-- that waits for a slot and runs its job. Dispatch.Held is about the tasks and the job ids that it
-- holds.
-- Resolver: workers/dependency_resolver.py, and `_resume_unblocked_waiting_once` of
-- workers/dispatcher.py.
-- SagaFlow: workers/saga_coordinator.py and repositories/saga.py. SagaFlow.Order is about the list
-- of the completed steps, SagaFlow.Steps about the loop that cancels the others, SagaFlow.Rollback
-- and SagaFlow.Once about a rollback.
-- SagaService: services/saga.py (`create_saga`), which creates its steps through JobService;
-- SagaService.Steps is about the call for one step, SagaService.Chain about the saga.
-- Relay: `_outbox_relay_tick` of workers/dispatcher.py with the fetch and the marks of
-- repositories/outbox.py. Relay.Order and Relay.Marks are about the fetch and the marks,
-- Relay.Tick about one pass, Relay.Drain about many.
-- Backstop: `_promote_delayed_once` and `_requeue_stale_pending_once` of workers/dispatcher.py.
-- Backstop.Promoted and Backstop.Requeued are about one pass of each.
-- Sweep: `_sweep_stale_running_once` and `_force_dead_letter` of workers/dispatcher.py.
-- Sweep.Scanned is about a scan, Sweep.Recovered about the rows that a pass recovers, Sweep.Passes
-- about a whole pass; JobRepo.Guarded is about the compare-and-set that it writes with.
-- Replays: workers/dlq_replay_scheduler.py, the two sorted sets of delayed replays.
-- Replays.Members is about the text of a member, Replays.Claims and Replays.Reclaims about the
-- claim script.
-- Firing: `_promote_dlq_replay_once` of workers/dispatcher.py, which fires what Replays claims
-- through JobService. Firing.Fired is about one pass.
-- Idempotency: services/idempotency.py and repositories/idempotency.py, the keys of a service
-- account's actions.
-- ToolCall: `handle_tools_call` and `_run_tool_call` of mcp/handlers.py, which claims its keys
-- through Idempotency. ToolCall.Keyed and ToolCall.Repeats are about a call with a key,
-- ToolCall.Audited about its audit row.
-- Admission: utils/rate_limit.py, utils/quota.py, utils/backpressure.py and utils/admission.py,
-- the checks before jobs are created. Admission.Windows is about the rate limit, Admission.Quotas
-- about the whole check.
-- Breaker: core/circuit_breaker.py, one circuit breaker. Breaker.Interleaved is about any order of
-- its locked sections, Breaker.Tripping about opening, probing and rejecting.
-- Consumer: workers/kafka_consumer.py (`_process_one`, `_process_batch`, `run`, `consumer_lag` and
-- the kill switch), the base of the Kafka consumers. Consumer.Covered, Consumer.Partitions and
-- Consumer.Delivered are about what a committed offset says, Consumer.Isolated about the
-- partitions of one batch, Consumer.Skipped about a commit that raises, Consumer.Loop,
-- Consumer.Sticky and Consumer.Lag model the loop, the kill switch and the lag.
-- Supervisor: workers/supervisor.py, the restarts of the worker task and its liveness, with
-- Supervisor.Wedged about loops that no longer come around.
-- Cache: utils/cache.py, one slot of the job cache, with Cache.Fresh about its readers, and
-- Cache.Hooks about utils/post_commit.py, where the rollback of a savepoint drops the queue as
-- that of the transaction does.
-- ReadModel: workers/read_model.py, the status views that its projector keeps. ReadModel.Views is
-- about one view, ReadModel.Exclusive and ReadModel.Projected about all of them.
-- AgentRuns: services/agent_run.py, the reports of an autonomous responder. AgentRuns.Ledger,
-- AgentRuns.Kept and AgentRuns.Written are about what every row keeps, AgentRuns.Rows,
-- AgentRuns.Repeats and AgentRuns.Resent about a report that is sent again.
-- Examples: a small database, and the theorems applied to it.
--
-- How the parts meet: Admission stands before JobService, which writes rows and outbox events; a
-- `job.submitted` event leads to a Run, which settles the row through JobRepo's `update_status`;
-- that write announces a terminal status and cancels what can no longer run; Resolver reads the
-- `job.completed` event and promotes the children; SagaFlow reads the terminal events of a saga's
-- steps. The outbox rows reach Kafka through Relay. The consumers behind Run, Resolver, SagaFlow
-- and ReadModel share the loop of Consumer; services queue the operations of Cache as hooks that
-- follow their commit. A job whose worker died is found by Sweep, a retry that fell out of the
-- delayed set by Backstop.
--
-- Modelling choices. An id is a number, and `next_id` numbers the draws of uuid4. A time is a
-- number of seconds, and `now` is an argument. What other transactions commit between two steps of
-- a call is a function on the database (`others`). A Redis read is an option, absent where it
-- raises. A composed text is a template with its values, a JSON value is a text or one that the
-- program writes itself, and the size of a serialised payload is a parameter, since json is not
-- part of the repository. The processor of a job and the language model's retry policy enter a run
-- as the values that they return. The base of the retry backoff is a natural number. A publish to
-- Kafka enters the relay as its outcome, a tool enters a call as its input check and its handler,
-- and the breaker's calls are split at the points where another task can run.
--
-- Bounds and fuel. The walk up the dependencies runs on as many steps as there are edges and two;
-- it is capped at 64 jobs. The cascade runs at most 50 rounds, as the code does. A pop takes at
-- most 1000 members, a resume sweep examines at most 200 rows, the relay and the two sweeps at
-- most 100, and a claim of delayed replays takes at most 1000. Numbers are natural numbers:
-- Python's integers do not wrap.
--
-- Not modelled: the cancellation of a run's task, which leaves its row RUNNING for the sweep; page
-- reads (`list_jobs` and the like), progress events, metrics, logs and traces; the loops around
-- the dispatcher's passes, SLO and alert services, the registry of breakers, the rebuild of the
-- read model and its expiries; the HTTP API, the operator tools behind the envelope,
-- authentication, language model calls, migrations and the frontend. The client libraries of
-- Kafka, Redis and the database, hashlib and uuid are not part of the repository: what the code
-- uses of them is a parameter or written out as the commands that it sends.
pub mod Prelude
pub mod Store
pub mod DagPause
pub mod JobRepo
pub mod JobService
pub mod Queue
pub mod Run
pub mod Dispatch
pub mod Resolver
pub mod SagaFlow
pub mod SagaService
pub mod Relay
pub mod Backstop
pub mod Sweep
pub mod Replays
pub mod Firing
pub mod Idempotency
pub mod ToolCall
pub mod Admission
pub mod Breaker
pub mod Consumer
pub mod Supervisor
pub mod Cache
pub mod ReadModel
pub mod AgentRuns
pub mod Examples
