-- ===== src/Config/TaskQueue.antt =====
-- The statement timeout of the PostgreSQL queue (cqrs-runtime/src/postgres/task_queue/config.rs).
use account_management_servi.Base.{
  ◌||◌, ◌==◌, text, ltb, if◌then◌else◌, Result, ok, err, ◌>>=◌, map_err,
}
use account_management_servi.Time.{Duration, as_millis, from_millis, i32_max}
use account_management_servi.Config.{Lookup, read_u64}

pub record PostgresTaskQueueConfig : Type 0 where
  pub statement_timeout : Duration

pub data PostgresTaskQueueConfigError : Type 0 where
  invalid_environment_value invalid_statement_timeout : PostgresTaskQueueConfigError

unfoldable pub new : Duration → Result PostgresTaskQueueConfigError PostgresTaskQueueConfig
new statement_timeout =
    if (as_millis statement_timeout == 0) || ltb i32_max (as_millis statement_timeout)
    then err invalid_statement_timeout
    else ok (record { statement_timeout = statement_timeout })

abbrev pub default : Result PostgresTaskQueueConfigError PostgresTaskQueueConfig
default = new (from_millis 4_000)

unfoldable pub from_lookup : Lookup → Result PostgresTaskQueueConfigError PostgresTaskQueueConfig
unfolding new read_u64
from_lookup lookup = do
  millis ←
      map_err (read_u64 lookup (text "OUTBOX_POSTGRES_STATEMENT_TIMEOUT_MS") 4_000)
        (λ _. invalid_environment_value)
  new (from_millis millis)
