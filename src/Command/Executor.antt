-- ===== src/Command/Executor.antt =====
-- `CqrsCommandExecutor` (cqrs-runtime/src/command/executor.rs). The framework of cqrs-es is a
-- parameter: `build_framework` binds a task list to a framework `Fr`, and `framework_execute` runs one
-- command, which loads the aggregate, handles the command and commits, over the world `W` of the
-- database. What is logged is in Diagnostics.
use account_management_servi.Base.{ℕ, Option, none, some, List, Text, Result, ok, err}
use account_management_servi.Command.{
  AggregateError, user_error, aggregate_conflict, database_connection_error, deserialization_error,
  unexpected_error, CommandGatewayError, domain, conflict, unavailable,
}
use account_management_servi.Command.Retry.{retry_on_aggregate_conflict}

unfoldable pub map_aggregate_error : {D : Type 0} → AggregateError D → CommandGatewayError D
map_aggregate_error (user_error e) = domain e
map_aggregate_error aggregate_conflict = conflict
map_aggregate_error database_connection_error = unavailable
map_aggregate_error deserialization_error = unavailable
map_aggregate_error unexpected_error = unavailable

abbrev pub mapped :
    {D : Type 0}
    → Option (Result (AggregateError D) (Unit {0}))
    → Option (Result (CommandGatewayError D) (Unit {0}))
unfolding map_aggregate_error
mapped none = none
mapped (some (ok a)) = some (ok a)
mapped (some (err e)) = some (err (map_aggregate_error e))

module _ {D C Task Fr W : Type 0} (build_framework : List Task → Fr)
    (framework_execute : Fr → Text → C → W → Result (AggregateError D) (Unit {0}) × W)
    (max_attempts : ℕ) (sleep : ℕ → W → W) where
  -- The framework is built once; each attempt runs the same command against it.
  unfoldable pub execute :
      Text → C → List Task → W → Option (Result (CommandGatewayError D) (Unit {0})) × W
  unfolding map_aggregate_error retry_on_aggregate_conflict
  execute aggregate_id command tasks w =
      let framework = build_framework tasks in
      let (result, w') =
        retry_on_aggregate_conflict max_attempts (framework_execute framework aggregate_id command)
          sleep w in
      (mapped result, w')
