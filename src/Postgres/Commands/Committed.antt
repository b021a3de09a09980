-- ===== src/Postgres/Commands/Committed.antt =====
-- What a command leaves in the database over all its attempts (cqrs-runtime/src/postgres/command_factory.rs,
-- command/executor.rs, command/retry.rs).
use account_management_servi.Base.{ℕ, ◌≤◌, ◌≡◌, refl, some, List, Text, ap, ◌∙◌, Result}
use account_management_servi.Task.Data.{NewTask}
use account_management_servi.Command.{AggregateError, CommandGatewayError}
use account_management_servi.Command.Retry.{
  AggregateConflictRetryPolicy, retry_on_aggregate_conflict,
}
use account_management_servi.Command.Executor.{execute, mapped}
use account_management_servi.Postgres.Write.{Database, PersistenceError}
use account_management_servi.Postgres.Commands.{
  PostgresEventRepositoryWithOutbox, PostgresCommandConfig, command_executor,
}
use account_management_servi.Postgres.Commands.Attempts.{
  IsConversion, Waited, RunsOnce, AnswerLeft, retry-LoopLeft, outward,
}

module _ {D C V F Store Fr : Type 0} (ty : Text)
    (new_snapshot_store : PostgresEventRepositoryWithOutbox V → ℕ → Store)
    (new_framework : Store → Fr)
    (framework_execute : Fr
      → Text
      → C
      → Database V
      → Result (AggregateError D) (Unit {0}) × Database V)
    (sleep : AggregateConflictRetryPolicy F → ℕ → Database V → Database V)
    (from : PersistenceError → AggregateError D) (conversion : IsConversion from)
    (once : (repository : PostgresEventRepositoryWithOutbox V) (interval : ℕ) (id : Text) (c : C)
        (d : Database V)
      → RunsOnce ty from repository.tasks d
          (framework_execute (new_framework (new_snapshot_store repository interval)) id c d)) where
  -- However the attempts of a command go, and whatever others do to the database in the waits between them,
  -- the executor answers, and all that the command leaves behind is what its last attempt leaves. A success
  -- has stored one event, its snapshot and all the tasks in one step, or, without tasks, nothing at all. A
  -- refusal by the domain and a conflict have stored nothing. When the storage is unavailable, either nothing
  -- or the whole of one such write is stored. This holds with a positive attempt limit, over a framework that
  -- runs a command into at most one `persist` of its repository and passes the answer on, if a fault that
  -- loses a statement's answer is not taken for a duplicate key.
  pub command_committed :
      (config : PostgresCommandConfig F) (id : Text) (c : C) (tasks : List (NewTask V))
      (d : Database V)
      → 1 ≤ config.conflict_retry.max_attempts
      → let (out, d') =
          command_executor new_snapshot_store new_framework framework_execute sleep config id c
            tasks d in
        (answer : Result (CommandGatewayError D) (Unit {0})) × (out ≡ some answer)
        × (last : Database V) × Waited (sleep config.conflict_retry) d last
        × AnswerLeft ty tasks answer last d'
  unfolding command_executor execute retry_on_aggregate_conflict
  command_committed config id c tasks d h =
      let run =
        framework_execute
          (new_framework (new_snapshot_store (record { tasks = tasks }) config.snapshot_interval))
          id c in
      let most = config.conflict_retry.max_attempts in
      let (x, q, last, waited, left) =
        retry-LoopLeft ty from conversion tasks (sleep config.conflict_retry) run
          (once (record { tasks = tasks }) config.snapshot_interval id c) most most d refl h in
      let (answer, r, kept) = outward ty tasks x last _ left in
      (answer, ap mapped q ∙ r, last, waited, kept)
