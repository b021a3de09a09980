-- ===== src/Postgres/Commands.antt =====
-- The command executor on PostgreSQL (cqrs-runtime/src/postgres/command_factory.rs, with the construction of
-- event_repository_with_outbox/repository.rs). The store and the framework of cqrs-es are parameters, as is
-- the random draw in the waits; the pool is the world that they act on.
pub mod Persisted
pub mod Attempts
pub mod Committed
use account_management_servi.Base.{ℕ, Option, List, [], Text, ◌==◌, if◌then◌else◌, Result, ok, err}
use account_management_servi.Task.Data.{NewTask}
use account_management_servi.Command.{AggregateError, CommandGatewayError}
use account_management_servi.Command.Retry.{AggregateConflictRetryPolicy}
use account_management_servi.Command.Executor.{execute}

pub record PostgresCommandConfig (F : Type 0) : Type 0 where
  pub snapshot_interval : ℕ
  pub conflict_retry : AggregateConflictRetryPolicy F

pub data PostgresCommandConfigError : Type 0 where
  invalid_snapshot_interval : PostgresCommandConfigError

unfoldable pub new :
    {F : Type 0}
    → ℕ
    → AggregateConflictRetryPolicy F
    → Result PostgresCommandConfigError (PostgresCommandConfig F)
new snapshot_interval conflict_retry =
    if snapshot_interval == 0
    then err invalid_snapshot_interval
    else ok record { snapshot_interval = snapshot_interval; conflict_retry = conflict_retry }

pub record PostgresEventRepositoryWithOutbox (V : Type 0) : Type 0 where
  pub tasks : List (NewTask V)

abbrev pub new_repository : {V : Type 0} → PostgresEventRepositoryWithOutbox V
new_repository = record { tasks = [] }

abbrev pub with_outbox :
    {V : Type 0}
    → PostgresEventRepositoryWithOutbox V
    → List (NewTask V)
    → PostgresEventRepositoryWithOutbox V
with_outbox repository tasks = record repository { tasks = tasks }

module _ {D C V F Store Fr W : Type 0}
    (new_snapshot_store : PostgresEventRepositoryWithOutbox V → ℕ → Store)
    (new_framework : Store → Fr)
    (framework_execute : Fr → Text → C → W → Result (AggregateError D) (Unit {0}) × W)
    (sleep : AggregateConflictRetryPolicy F → ℕ → W → W) where
  unfoldable pub command_executor :
      PostgresCommandConfig F
      → Text
      → C
      → List (NewTask V)
      → W
      → Option (Result (CommandGatewayError D) (Unit {0})) × W
  unfolding execute
  command_executor config =
      execute
        (λ tasks.
          new_framework
            (new_snapshot_store (with_outbox new_repository tasks) config.snapshot_interval))
        framework_execute config.conflict_retry.max_attempts (sleep config.conflict_retry)
