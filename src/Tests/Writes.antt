-- ===== src/Tests/Writes.antt =====
-- The theorems on a command's write at samples.
use account_management_servi.Base.{
  ℕ, ◌≡◌, ◌≢◌, arith, refl, ◌⊎◌, inl, inr, true, Bool, Option, none, some, [], ◌∷◌, Text, text,
  Result, ok, err, map_err, where_true,
}
use account_management_servi.Postgres.WritePlan.{
  SerializedEvent, none_written, one_event, write_plan, snapshot_write, bind_count,
  validate_bind_count,
}
use account_management_servi.Postgres.Write.{
  Database, Statement, persist_one, optimistic_lock, connection_error, unknown_error,
  PersistenceError, persist_command, run_statement, write_snapshot, write_tasks, has_event,
  is_previous,
}
use account_management_servi.Postgres.Write.Atomic.{IsWritten, persist_one_atomic}
use account_management_servi.Postgres.Write.Conflicts.{one_writer_wins}
use account_management_servi.Command.{
  AggregateError, user_error, aggregate_conflict, database_connection_error, unexpected_error,
  CommandGatewayError,
}
use account_management_servi.Postgres.Commands.{
  PostgresEventRepositoryWithOutbox, PostgresCommandConfig, command_executor,
}
use account_management_servi.Postgres.Commands.Attempts.{IsConversion, Waited, RunsOnce, AnswerLeft}
use account_management_servi.Postgres.Commands.Committed.{command_committed}
use account_management_servi.Tests.Samples.{email, task}

abbrev event : SerializedEvent Bool
event = record {
  aggregate_id = email;
  sequence = 1;
  event_type = text "email_reserved";
  event_version = text "1.0";
  payload = true;
  metadata = true;
}

abbrev empty_database : Database Bool
empty_database = record { events = []; snapshots = []; outbox = [] }

abbrev answered : Statement
answered = record { stamp = 10; fault = none; durable = true }

abbrev user_account : Text
user_account = text "user_account"

persist_one_atomic_example :
    let (answer, db') =
      persist_one user_account (task ∷ []) event 1 none_written answered empty_database in
    ((answer ≡ ok tt)
      × IsWritten 10 user_account (task ∷ []) event 1 none_written empty_database db')
    ⊎ ((answer ≢ ok tt) × (db' ≡ empty_database))
    ⊎ ((answer ≢ ok tt)
        × (answered.fault ≢ none)
        × (answered.durable ≡ true)
        × IsWritten 10 user_account (task ∷ []) event 1 none_written empty_database db')
persist_one_atomic_example =
    persist_one_atomic user_account (task ∷ []) event 1 none_written answered empty_database

first_wins :
    (persist_one user_account (task ∷ []) event 1 none_written answered empty_database).0 ≡ ok tt
unfolding persist_one run_statement write_snapshot write_tasks has_event
first_wins = refl

one_writer_wins_example :
    let db' =
      (persist_one user_account (task ∷ []) event 1 none_written answered empty_database).1 in
    persist_one user_account [] event 1 none_written answered db' ≡ (err optimistic_lock, db')
one_writer_wins_example =
    one_writer_wins user_account (task ∷ []) [] event event 1 none_written none_written answered
      answered empty_database refl first_wins refl

none_before : where_true (is_previous user_account email 2) empty_database.snapshots ≡ []
unfolding where_true
none_before = refl

abbrev without_snapshot : Option (Text × Bool × ℕ)
without_snapshot = none

planned : write_plan (event ∷ []) without_snapshot (task ∷ []) ≡ ok (one_event event 1 none_written)
unfolding write_plan snapshot_write validate_bind_count bind_count
planned = refl

from_persistence : PersistenceError → AggregateError ℕ
from_persistence optimistic_lock = aggregate_conflict
from_persistence connection_error = database_connection_error
from_persistence unknown_error = unexpected_error

conversion : IsConversion from_persistence
unfolding from_persistence
conversion = record { of_lock = refl; of_connection = refl; of_unknown = refl }

-- A framework whose commands are refused with a number or store the event.
unfoldable run_command :
    PostgresEventRepositoryWithOutbox Bool
    → Text
    → Option ℕ
    → Database Bool
    → Result (AggregateError ℕ) (Unit {0}) × Database Bool
unfolding from_persistence
run_command repository id (some refusal) d = (err (user_error refusal), d)
run_command repository id none d =
    let (answer, d') = persist_command user_account repository.tasks (event ∷ []) none answered d in
    (map_err answer from_persistence, d')

run_command-RunsOnce :
    (repository : PostgresEventRepositoryWithOutbox Bool) (interval : ℕ) (id : Text) (c : Option ℕ)
    (d : Database Bool)
    → RunsOnce user_account from_persistence repository.tasks d (run_command repository id c d)
unfolding run_command from_persistence
run_command-RunsOnce repository interval id (some refusal) d = inl (user_error refusal, refl, refl)
run_command-RunsOnce repository interval id none d =
    inr (event ∷ [], none, answered, (λ e f. absurd (ground (arith, f))), refl, refl)

abbrev config : PostgresCommandConfig ℕ
config = record {
  snapshot_interval = 25;
  conflict_retry = record {
    max_attempts = 3;
    initial_backoff = 10_000_000;
    max_backoff = 100_000_000;
    jitter_ratio = 20;
  };
}

command_committed_example :
    let (out, d') =
      command_executor
        (λ r n. r)
        (λ r. r)
        run_command
        (λ p n d. d)
        config
        email
        none
        (task ∷ [])
        empty_database in
    (answer : Result (CommandGatewayError ℕ) (Unit {0})) × (out ≡ some answer)
    × (last : Database Bool) × Waited (λ n d. d) empty_database last
    × AnswerLeft user_account (task ∷ []) answer last d'
command_committed_example =
    command_committed user_account (λ r n. r) (λ r. r) run_command (λ p n d. d) from_persistence
      conversion run_command-RunsOnce config email none (task ∷ []) empty_database (omega arith)
