-- ===== src/Lib.antt =====
-- A model of the account management service: a registration service in Rust on an event-sourced core
-- (account-managements-service), over a runtime for commands and durable tasks on PostgreSQL (cqrs-runtime).
--
-- How the parts interact. An HTTP request becomes a command on an aggregate. The command executor loads the
-- aggregate, runs its handler and commits at most one event together with tasks for the outbox, and tries
-- again on a conflict. Workers claim tasks from the outbox under a lease, dispatch each to the adapter of its
-- format, and settle it; expired leases are recovered. The tasks of a registration carry it from the accepted
-- profile over the created account to the completed reservation.
--
-- Which file models what:
--   Domain.EmailReservation, Domain.Profile, Domain.Email: account-managements-service/src/domain/email_reservation
--     and email_reservation.rs; `Handlers.handle_*` are the methods of commands.rs, `Aggregate.handle` and `apply`
--     those of aggregate.rs. `execute` runs a handler and applies its event, as the framework's sink does.
--   Domain.UserAccount: account-managements-service/src/domain/user_account and user_account.rs.
--   Command, Command.Retry, Command.Executor: cqrs-runtime/src/command.rs, command/retry.rs, command/executor.rs.
--   Diagnostics: cqrs-runtime/src/diagnostics.rs and `log_aggregate_error` of command/executor.rs.
--   Task.Data, Task.Queue: cqrs-runtime/src/task/data and task/queue, the vocabulary of tasks, leases, settlements.
--   Task.Dispatcher: cqrs-runtime/src/task/handling. Task.Budget, Task.Executor: cqrs-runtime/src/task/executor.
--   Postgres.Outbox: the table of cqrs-runtime/sql/002-transactional-outbox.sql and the effect of each statement on a row.
--   Postgres.Queue: cqrs-runtime/src/postgres/task_queue; `claim`, `settle`, `recover_expired` are the functions of
--     claim.rs, settlement.rs, recovery.rs, each a function from the table to the answer and the table after it.
--   Postgres.WritePlan, Postgres.Write: cqrs-runtime/src/postgres/event_repository_with_outbox, its statement run on
--     the tables of cqrs-runtime/sql.
--   Postgres.Commands: cqrs-runtime/src/postgres/command_factory.rs, a command's attempts each ending in one write.
--   Runtime.PoolConfig, Runtime.Poller, Runtime.Preparation: cqrs-runtime/src/runtime/worker_pool_config.rs, poller.rs,
--     preparation.rs, dispatcher_factory.rs and `run` of supervisor.rs. Runtime.WorkerPool: the registry of workers in
--     worker_pool.rs. Runtime.Supervisor: supervisor.rs, worker.rs and worker_pool.rs, as a step relation in which the
--     steps of the supervisor, its workers and the host interleave.
--   Application: account-managements-service/src/application; the gateways are interfaces over an abstract world.
--   Application.Tasks: its task handlers, with infrastructure/console.rs and the dispatcher of startup/wiring.rs.
--   Infrastructure: account-managements-service/src/infrastructure/cqrs, the gateways over command executors.
--   System: the use cases and the deliveries of published tasks as the steps of one store, which is seen through the
--     state of each aggregate and the tasks published so far. A command may be lost, fail or be refused, its answer may
--     be lost, and a task may be delivered at any time and again. System.Gateways has the gateways as startup/wiring.rs
--     puts them together, System.Start the start of the runtime from the environment.
--   Http: account-managements-service/src/presentation; each handler is a function of the extracted request and of the
--     service that it calls.
--   Config: cqrs-runtime/src/env.rs, logging.rs, the settings of task/queue/storage_config.rs, runtime/config.rs,
--     runtime/worker_pool_config.rs and postgres/task_queue/config.rs, and account-managements-service/src/config.rs.
--   Host: cqrs-runtime/src/host/lifecycle.rs and error.rs; `run` is a function of what each poll of its `select!` finds
--     ready and of how the components end, to its result and what it did in order.
--   Startup: account-managements-service/src/main.rs and startup; each stage gives its result and what it did in order.
--   Base and Time: shared types; Tests: samples, concrete runs, and instances of the theorems.
--
-- Representation. Text is a list of code points; UUIDs, dates and times are numbers; durations and instants count
-- nanoseconds, with the checked operations of Rust written out; database times count microseconds. Machine integers
-- keep their bounds: a `usize` has 64 bits. A lock, a clock, a token, a random draw, a lost connection or a commit of
-- unknown outcome is an input of the operation that meets it. Panics are values.
--
-- Loops are structural: the retry loop counts its attempts, the poller its formats, recovery its selected rows, so no
-- fuel is needed. The crates cqrs-es, sqlx, serde, email_address, sha2 and floating point are parameters; what is relied on
-- of them is a named hypothesis.
--
-- Not modelled: HTTP routing and extraction, operating system signals, the writing of logs, accessors and Debug output,
-- and reads of events, which postgres-es does.
pub mod Base
pub mod Time
pub mod Domain
pub mod Command
pub mod Diagnostics
pub mod Task
pub mod Postgres
pub mod Runtime
pub mod Config
pub mod Host
pub mod Startup
pub mod Application
pub mod Infrastructure
pub mod System
pub mod Http
pub mod Tests
