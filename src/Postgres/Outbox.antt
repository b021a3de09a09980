-- ===== src/Postgres/Outbox.antt =====
-- The table `transactional_outbox` (cqrs-runtime/sql/002-transactional-outbox.sql): its rows, its CHECK
-- constraints, and what each statement of the queue does to one row. A `timestamptz` is a number of
-- microseconds; `now` is the statement's timestamp, `clock` the later `clock_timestamp()`.
pub mod Rows
use account_management_servi.Base.{
  ℕ, zero, suc, ◌+◌, ◌*◌, ◌≤◌, ◌<◌, ◌≡◌, ◌≢◌, Bool, true, false, ◌&&◌, ◌||◌, not, Option, none,
  some, List, [], ◌∷◌, Text, is_empty, is_some, ltb, leb, ◌==◌, if◌then◌else◌, ℤ, is_positive,
  to_nat, text,
}
use account_management_servi.Time.{as_millis}
use account_management_servi.Task.Data.{
  Json, TaskFormat, format_eq, TaskSchedule, now, after, at, NewTask,
}

pub data Status : Type 0 where
  pending processing completed failed : Status

abbrev pub is_pending : Status → Bool
is_pending pending = true
is_pending _ = false

abbrev pub is_processing : Status → Bool
is_processing processing = true
is_processing _ = false

abbrev pub is_failed : Status → Bool
is_failed failed = true
is_failed _ = false

abbrev pub is_terminal : Status → Bool
is_terminal pending = false
is_terminal processing = false
is_terminal _ = true

-- A row. The columns `attempts` and `max_attempts` are integers that CHECK constraints keep from being
-- negative.
pub record Row (V : Type 0) : Type 0 where
  pub id : ℕ
  pub aggregate_type : Text
  pub aggregate_id : Text
  pub aggregate_sequence : ℕ
  pub format : TaskFormat
  pub payload : V
  pub metadata : V
  pub status : Status
  pub created_at : ℕ
  pub available_at : ℕ
  pub finished_at : Option ℕ
  pub attempts : ℕ
  pub max_attempts : ℕ
  pub last_error : Option Text
  pub locked_by : Option Text
  pub lock_token : Option ℕ
  pub locked_until : Option ℕ

-- The CHECK constraints of the table.
pub record Checks {V : Type 0} (json : Json V) (r : Row V) : Type 0 where
  pub sequence_positive : 0 < r.aggregate_sequence
  pub type_given : is_empty r.format.task_type ≡ false
  pub version_positive : is_positive r.format.task_version ≡ true
  pub payload_object : json.is_object r.payload ≡ true
  pub metadata_object : json.is_object r.metadata ≡ true
  pub max_positive : 0 < r.max_attempts
  pub attempts_bounded : r.attempts ≤ r.max_attempts
  pub owner_iff : is_some r.locked_by ≡ is_processing r.status
  pub token_iff : is_some r.lock_token ≡ is_processing r.status
  pub until_iff : is_some r.locked_until ≡ is_processing r.status
  pub finished_iff : is_some r.finished_at ≡ is_terminal r.status
  pub pending_spare : r.status ≡ pending → r.attempts < r.max_attempts

abbrev pub at_most : Option ℕ → ℕ → Bool
at_most none t = false
at_most (some u) t = leb u t

-- `COALESCE(scheduled_at, statement_timestamp() + delay_ms * interval '1 millisecond')` over
-- `schedule_parts`.
abbrev pub first_available : ℕ → TaskSchedule → ℕ
first_available stamp now = stamp
first_available stamp (after delay) = stamp + as_millis delay * 1_000
first_available stamp (at t) = t

-- The row that the outbox INSERT of a command writes, with the table's defaults.
unfoldable pub inserted : {V : Type 0} → ℕ → Text → Text → ℕ → NewTask V → Row V
inserted stamp aggregate_type aggregate_id sequence t = record {
  id = t.id;
  aggregate_type = aggregate_type;
  aggregate_id = aggregate_id;
  aggregate_sequence = sequence;
  format = t.format;
  payload = t.payload;
  metadata = t.metadata;
  status = pending;
  created_at = stamp;
  available_at = first_available stamp t.schedule;
  finished_at = none;
  attempts = 0;
  max_attempts = to_nat t.max_attempts;
  last_error = none;
  locked_by = none;
  lock_token = none;
  locked_until = none;
}

-- The rows that a claim may take: `status = 'pending'`, of the format, and available.
unfoldable pub is_ready : {V : Type 0} → TaskFormat → ℕ → Row V → Bool
unfolding format_eq
is_ready f stamp r = is_pending r.status && (format_eq r.format f && leb r.available_at stamp)

-- The SET list of a claim.
unfoldable pub claimed : {V : Type 0} → Text → ℕ → ℕ → Row V → Row V
claimed owner token until r = record r {
  status = processing;
  attempts = r.attempts + 1;
  locked_by = some owner;
  lock_token = some token;
  locked_until = some until;
}

abbrev pub has_token : Option ℕ → ℕ → Bool
has_token none token = false
has_token (some t) token = t == token

abbrev pub outlives : Option ℕ → ℕ → Bool
outlives none clock = false
outlives (some u) clock = ltb clock u

-- What a settlement requires of the row: its ID and token, `processing`, and a lease that has not run
-- out.
unfoldable pub is_owned : {V : Type 0} → ℕ → ℕ → ℕ → Row V → Bool
is_owned id token clock r =
    (r.id == id)
    && (has_token r.lock_token token && (is_processing r.status && outlives r.locked_until clock))

-- The three outcomes that a settlement can ask for.
pub data Requested : Type 0 where
  to_completed to_pending to_failed : Requested

abbrev pub requested_status : Requested → Status
requested_status to_completed = completed
requested_status to_pending = pending
requested_status to_failed = failed

-- The SET list of a settlement.
unfoldable pub settled : {V : Type 0} → ℕ → Requested → ℕ → Option Text → Row V → Row V
settled stamp to_pending delay_ms error r =
    let spent = leb r.max_attempts r.attempts in
    record r {
      status = if spent then failed else pending;
      available_at = if spent then r.available_at else stamp + delay_ms * 1_000;
      finished_at = if spent then some stamp else none;
      last_error = error;
      locked_by = none;
      lock_token = none;
      locked_until = none;
    }
settled stamp to_completed delay_ms error r = record r {
  status = completed;
  finished_at = some stamp;
  last_error = error;
  locked_by = none;
  lock_token = none;
  locked_until = none;
}
settled stamp to_failed delay_ms error r = record r {
  status = failed;
  finished_at = some stamp;
  last_error = error;
  locked_by = none;
  lock_token = none;
  locked_until = none;
}

-- The rows that recovery may take: `processing` with a lease that has run out.
unfoldable pub is_expired : {V : Type 0} → ℕ → Row V → Bool
is_expired stamp r = is_processing r.status && at_most r.locked_until stamp

-- The SET list of the recovery of an expired lease.
unfoldable pub recovered : {V : Type 0} → ℕ → ℕ → Row V → Row V
recovered stamp delay_ms r =
    let spent = leb r.max_attempts r.attempts in
    record r {
      status = if spent then failed else pending;
      available_at = stamp + delay_ms * 1_000;
      finished_at = if spent then some stamp else none;
      last_error = some (text "worker lease expired");
      locked_by = none;
      lock_token = none;
      locked_until = none;
    }

-- The manual restart of failed work (cqrs-runtime/sql).
unfoldable pub restarted : {V : Type 0} → ℕ → Row V → Row V
restarted stamp r = record r {
  status = pending;
  attempts = 0;
  available_at = stamp;
  finished_at = none;
  last_error = none;
  locked_by = none;
  lock_token = none;
  locked_until = none;
}
