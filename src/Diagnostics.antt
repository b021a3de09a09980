-- ===== src/Diagnostics.antt =====
-- What a failed command or statement leaves in the log (cqrs-runtime/src/diagnostics.rs, command/executor.rs). An error of
-- sqlx is its kind and, from a database, its code; any other error is its text.
pub mod Redaction
use account_management_servi.Base.{
  Bool, true, ◌&&◌, ◌||◌, Option, none, some, List, [], ◌∷◌, Text, text, leb, ◌==◌, if◌then◌else◌,
  length, ℕ,
}
use account_management_servi.Command.{
  AggregateError, user_error, aggregate_conflict, database_connection_error, deserialization_error,
  unexpected_error,
}
use account_management_servi.Task.Dispatcher.{safe_type}

pub data SqlxError : Type 0 where
  io tls pool_timed_out pool_closed decode column_decode configuration other : SqlxError
  database : (code : Option Text) → SqlxError

unfoldable pub sqlx_kind : SqlxError → Text
sqlx_kind io = text "io"
sqlx_kind tls = text "tls"
sqlx_kind (database code) = text "database"
sqlx_kind pool_timed_out = text "pool_timeout"
sqlx_kind pool_closed = text "pool_closed"
sqlx_kind decode = text "decode"
sqlx_kind column_decode = text "decode"
sqlx_kind configuration = text "configuration"
sqlx_kind other = text "other"

abbrev pub is_code_char : ℕ → Bool
is_code_char c = (leb 65 c && leb c 90) || (leb 48 c && leb c 57)

abbrev pub all_code : Text → Bool
all_code [] = true
all_code (c ∷ cs) = is_code_char c && all_code cs

-- The length is that of the bytes, which a text of these characters has one of for each.
unfoldable pub sqlstate : SqlxError → Option Text
sqlstate (database (some code)) = if (length code == 5) && all_code code then some code else none
sqlstate _ = none

pub record StorageLine : Type 0 where
  pub operation : Text
  pub category : Text
  pub state : Option Text

unfoldable pub log_sqlx_failure : Text → SqlxError → StorageLine
unfolding sqlx_kind sqlstate
log_sqlx_failure operation error = record {
  operation = operation;
  category = sqlx_kind error;
  state = sqlstate error;
}

-- An error in a chain of sources: one of sqlx, or another with its text.
pub data Source : Type 0 where
  sqlx : SqlxError → Source
  foreign : Text → Source

pub record LogLine : Type 0 where
  pub aggregate_type : Text
  pub category : Text
  pub storage : Option (Text × Option Text)

unfoldable pub log_command_failure : Text → Text → List Source → LogLine
unfolding safe_type sqlx_kind sqlstate
log_command_failure aggregate_type category [] = record {
  aggregate_type = safe_type aggregate_type;
  category = category;
  storage = none;
}
log_command_failure aggregate_type category (sqlx error ∷ chain) = record {
  aggregate_type = safe_type aggregate_type;
  category = category;
  storage = some (sqlx_kind error, sqlstate error);
}
log_command_failure aggregate_type category (foreign message ∷ chain) =
    log_command_failure aggregate_type category chain

-- The chain starts with the error that the variant boxes and follows `Error::source`. The line, if any, is
-- what is logged.
unfoldable pub log_aggregate_error :
    {D : Type 0} → Text → AggregateError D → List Source → Option LogLine
log_aggregate_error aggregate_type database_connection_error chain =
    some (log_command_failure aggregate_type (text "connection") chain)
log_aggregate_error aggregate_type deserialization_error chain =
    some (log_command_failure aggregate_type (text "deserialization") chain)
log_aggregate_error aggregate_type unexpected_error chain =
    some (log_command_failure aggregate_type (text "unexpected") chain)
log_aggregate_error aggregate_type (user_error e) chain = none
log_aggregate_error aggregate_type aggregate_conflict chain = none
