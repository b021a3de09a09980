-- ===== src/Postgres/Write.antt =====
-- One command's write (cqrs-runtime/src/postgres/event_repository_with_outbox/write.rs, repository.rs): a
-- single statement that stores the event, its snapshot and its tasks, on the tables of
-- cqrs-runtime/sql/001-event-store.sql and 002-transactional-outbox.sql.

pub mod Atomic
pub mod Conflicts
use account_management_servi.Base.{
  ℕ, ◌+◌, ◌-◌, ◌≡◌, Bool, true, false, not, ◌&&◌, ◌||◌, Option, none, some, List, [], ◌∷◌, ◌++◌,
  map, Text, text, text_eq, length, ltb, ◌==◌, if◌then◌else◌, Result, ok, err, ◌>>=◌, map_err,
  where_true, update_where,
}
use account_management_servi.Task.Data.{NewTask}
use account_management_servi.Postgres.Outbox.{Row, inserted}
use account_management_servi.Postgres.WritePlan.{
  SerializedEvent, SnapshotWrite, none_written, insert, update, WritePlan, no_op, one_event,
  WriteValidationError, write_plan,
}

-- What the `sqlx` driver reports.
pub data SqlxError : Type 0 where
  database : (code constraint : Option Text) → SqlxError
  io tls other : SqlxError

pub data PersistenceError : Type 0 where
  optimistic_lock connection_error unknown_error : PersistenceError

abbrev pub is_text : Option Text → Text → Bool
is_text none t = false
is_text (some s) t = text_eq s t

unfoldable pub map_sqlx_error : SqlxError → PersistenceError
map_sqlx_error (database code constraint) =
    if is_text code (text "23505")
      && (is_text constraint (text "events_pkey") || is_text constraint (text "snapshots_pkey"))
    then optimistic_lock
    else unknown_error
map_sqlx_error io = connection_error
map_sqlx_error tls = connection_error
map_sqlx_error other = unknown_error

abbrev pub unique_violation : Text → SqlxError
unique_violation constraint = database (some (text "23505")) (some constraint)

-- A row of `events` and one of `snapshots`.
pub record StoredEvent (V : Type 0) : Type 0 where
  pub aggregate_type : Text
  pub event : SerializedEvent V

pub record StoredSnapshot (V : Type 0) : Type 0 where
  pub aggregate_type : Text
  pub aggregate_id : Text
  pub last_sequence : ℕ
  pub current_snapshot : ℕ
  pub payload : V

pub record Database (V : Type 0) : Type 0 where
  pub events : List (StoredEvent V)
  pub snapshots : List (StoredSnapshot V)
  pub outbox : List (Row V)

-- The statement's connection: a fault that keeps it from being answered, and whether a statement that
-- was not answered took effect.
pub record Statement : Type 0 where
  pub stamp : ℕ
  pub fault : Option SqlxError
  pub durable : Bool

abbrev pub count_answer : ℕ → Result PersistenceError (Unit {0})
count_answer count = if count == 1 then ok tt else err optimistic_lock

module _ {V : Type 0} where
  -- The primary keys.
  unfoldable pub has_event : Text → Text → ℕ → List (StoredEvent V) → Bool
  has_event ty id sequence [] = false
  has_event ty id sequence (e ∷ es) =
      (text_eq e.aggregate_type ty
        && (text_eq e.event.aggregate_id id && (e.event.sequence == sequence)))
      || has_event ty id sequence es

  abbrev pub snapshot_at : Text → Text → ℕ → StoredSnapshot V → Bool
  snapshot_at ty id sequence s =
      text_eq s.aggregate_type ty && (text_eq s.aggregate_id id && (s.last_sequence == sequence))

  -- WHERE aggregate_type = … AND aggregate_id = … AND current_snapshot = version - 1.
  abbrev pub is_previous : Text → Text → ℕ → StoredSnapshot V → Bool
  is_previous ty id version s =
      text_eq s.aggregate_type ty
      && (text_eq s.aggregate_id id && (s.current_snapshot + 1 == version))

  -- `written_snapshot`: the table after it and how many rows it returns. A key that two rows would
  -- share is refused.
  unfoldable pub write_snapshot :
      Text
      → ℕ
      → SnapshotWrite V
      → List (StoredSnapshot V)
      → Result SqlxError (List (StoredSnapshot V) × ℕ)
  write_snapshot ty sequence none_written snapshots = ok (snapshots, 0)
  write_snapshot ty sequence (insert id payload version) snapshots =
      let new : StoredSnapshot V = record {
        aggregate_type = ty;
        aggregate_id = id;
        last_sequence = sequence;
        current_snapshot = version;
        payload = payload;
      } in
      if ltb 0 (length (where_true (snapshot_at ty id sequence) snapshots))
      then err (unique_violation (text "snapshots_pkey"))
      else ok (snapshots ++ new ∷ [], 1)
  write_snapshot ty sequence (update id payload version) snapshots =
      let set = λ (s : StoredSnapshot V). record s {
        last_sequence = sequence;
        current_snapshot = version;
        payload = payload;
      } in
      let count = length (where_true (is_previous ty id version) snapshots) in
      let snapshots' = update_where (is_previous ty id version) set snapshots in
      if ltb 0 count && ltb 1 (length (where_true (snapshot_at ty id sequence) snapshots'))
      then err (unique_violation (text "snapshots_pkey"))
      else ok (snapshots', count)

  abbrev pub has_id : ℕ → List (Row V) → Bool
  has_id id [] = false
  has_id id (r ∷ rs) = (r.id == id) || has_id id rs

  -- `written_tasks`: one row for each task. The primary key is refused as any other constraint is; of
  -- the CHECK constraints only the one on the sequence depends on more than the task.
  unfoldable pub write_tasks :
      ℕ → Text → Text → ℕ → List (NewTask V) → List (Row V) → Result SqlxError (List (Row V))
  unfolding inserted
  write_tasks stamp ty id sequence [] rows = ok rows
  write_tasks stamp ty id sequence (t ∷ ts) rows =
      let rest =
        write_tasks stamp ty id sequence ts (rows ++ inserted stamp ty id sequence t ∷ []) in
      if has_id t.id rows
      then err (unique_violation (text "transactional_outbox_pkey"))
      else if sequence == 0
      then err (database (some (text "23514")) none)
      else rest

  abbrev pub has_snapshot : SnapshotWrite V → Bool
  has_snapshot none_written = false
  has_snapshot _ = true

  -- The statement as PostgreSQL runs it: the database after it, and `snapshot_count`.
  unfoldable pub run_statement :
      ℕ
      → Text
      → List (NewTask V)
      → SerializedEvent V
      → ℕ
      → SnapshotWrite V
      → Database V
      → Result SqlxError (Database V × ℕ)
  run_statement stamp ty tasks event sequence snapshot db = do
    (snapshots, count) ← write_snapshot ty sequence snapshot db.snapshots
    if has_snapshot snapshot && (count == 0)
        then ok (record db { snapshots = snapshots }, 0)
        else if has_event ty event.aggregate_id sequence db.events
        then err (unique_violation (text "events_pkey"))
        else write_tasks stamp ty event.aggregate_id sequence tasks db.outbox >>= λ outbox. ok (
          record {
            events =
                db.events
                ++ record { aggregate_type = ty; event = record event { sequence = sequence } }
                  ∷ [];
            snapshots = snapshots;
            outbox = outbox;
          },
          if has_snapshot snapshot then count else 1,
        )

  -- A statement that PostgreSQL refuses changes nothing; one whose answer is lost may be committed.
  abbrev pub answered :
      Statement
      → Database V
      → Result SqlxError (Database V × ℕ)
      → Result PersistenceError (Unit {0}) × Database V
  answered s db (err e) = (err (map_sqlx_error e), db)
  answered s db (ok (db', count)) = elim s.fault [
    | none ↦ (count_answer count, db')
    | some e ↦ (err (map_sqlx_error e), if s.durable then db' else db)
  ]

  unfoldable pub persist_one :
      Text
      → List (NewTask V)
      → SerializedEvent V
      → ℕ
      → SnapshotWrite V
      → Statement
      → Database V
      → Result PersistenceError (Unit {0}) × Database V
  unfolding map_sqlx_error
  persist_one ty tasks event sequence snapshot s db =
      answered s db (run_statement s.stamp ty tasks event sequence snapshot db)

  abbrev pub persist_plan :
      Text
      → List (NewTask V)
      → Statement
      → Database V
      → Result WriteValidationError (WritePlan V)
      → Result PersistenceError (Unit {0}) × Database V
  persist_plan ty tasks s db (err e) = (err unknown_error, db)
  persist_plan ty tasks s db (ok no_op) = (ok tt, db)
  persist_plan ty tasks s db (ok (one_event event sequence snapshot)) =
      persist_one ty tasks event sequence snapshot s db

  unfoldable pub persist_command :
      Text
      → List (NewTask V)
      → List (SerializedEvent V)
      → Option (Text × V × ℕ)
      → Statement
      → Database V
      → Result PersistenceError (Unit {0}) × Database V
  persist_command ty tasks events snapshot s db =
      persist_plan ty tasks s db (write_plan events snapshot tasks)
