-- ===== src/Postgres/Commands/Persisted.antt =====
-- What a write leaves in the database, by its answer
-- (cqrs-runtime/src/postgres/event_repository_with_outbox).
use account_management_servi.Base.{
  ℕ, ◌≡◌, ◌≢◌, refl, ◌⊎◌, inl, inr, Option, none, some, Option-cases, List, [], Text, arith, Result,
  ok, err, Result-cases,
}
use account_management_servi.Task.Data.{NewTask}
use account_management_servi.Postgres.WritePlan.{
  SerializedEvent, SnapshotWrite, WritePlan, WriteValidationError, no_op, one_event, write_plan,
  write_plan_accepts,
}
use account_management_servi.Postgres.Write.{
  Database, Statement, SqlxError, PersistenceError, optimistic_lock, connection_error,
  unknown_error, map_sqlx_error, run_statement, persist_one, persist_plan, persist_command,
}
use account_management_servi.Postgres.Write.Atomic.{IsWritten, persist_one_atomic}

-- A fault that loses an answer is not the refusal of a duplicate key, which PostgreSQL answers.
abbrev pub IsLoss : Statement → Type 0
IsLoss s = (e : SqlxError) → s.fault ≡ some e → map_sqlx_error e ≢ optimistic_lock

module _ {V : Type 0} (ty : Text) where
  -- One event, its snapshot and all the tasks are stored, in one step.
  abbrev pub Stored : List (NewTask V) → Database V → Database V → Type 0
  Stored tasks db db' =
      (stamp : ℕ) × (event : SerializedEvent V) × (sequence : ℕ) × (snapshot : SnapshotWrite V)
      × IsWritten stamp ty tasks event sequence snapshot db db'

  -- What a write leaves, by its answer.
  abbrev pub Persisted :
      List (NewTask V) → Result PersistenceError (Unit {0}) → Database V → Database V → Type 0
  Persisted tasks (ok u) db db' = ((tasks ≡ []) × (db' ≡ db)) ⊎ Stored tasks db db'
  Persisted tasks (err optimistic_lock) db db' = db' ≡ db
  Persisted tasks (err connection_error) db db' = (db' ≡ db) ⊎ Stored tasks db db'
  Persisted tasks (err unknown_error) db db' = (db' ≡ db) ⊎ Stored tasks db db'

  locked :
      (tasks : List (NewTask V)) (event : SerializedEvent V) (sequence : ℕ)
      (snapshot : SnapshotWrite V) (s : Statement) (db : Database V)
      → IsLoss s
      → let (answer, db') = persist_one ty tasks event sequence snapshot s db in
        answer ≡ err optimistic_lock → s.fault ≢ none → db' ≡ db
  unfolding persist_one
  locked tasks event sequence snapshot s db loss q some_fault = elim (Option-cases s.fault) [
    | inl f ↦ absurd (some_fault f)
    | inr (e, f) ↦ elim (Result-cases (run_statement s.stamp ty tasks event sequence snapshot db)) [
      | inl (x, p) ↦ ground (arith, p)
      | inr ((d, n), p) ↦ absurd (loss e f (ground (arith, p, f, q)))
    ]
  ]

  persist_one-Persisted :
      (tasks : List (NewTask V)) (event : SerializedEvent V) (sequence : ℕ)
      (snapshot : SnapshotWrite V) (s : Statement) (db : Database V)
      → IsLoss s
      → let (answer, db') = persist_one ty tasks event sequence snapshot s db in
        Persisted tasks answer db db'
  persist_one-Persisted tasks event sequence snapshot s db loss =
      by_answer (persist_one ty tasks event sequence snapshot s db).0 refl
    where
      written : Type 0
      written =
          IsWritten s.stamp ty tasks event sequence snapshot db
            (persist_one ty tasks event sequence snapshot s db).1

      stored : written → Stored tasks db (persist_one ty tasks event sequence snapshot s db).1
      stored w = (s.stamp, event, sequence, snapshot, w)

      by_answer :
          (answer : Result PersistenceError (Unit {0}))
          → (persist_one ty tasks event sequence snapshot s db).0 ≡ answer
          → Persisted tasks answer db (persist_one ty tasks event sequence snapshot s db).1
      by_answer (ok u) q = elim (persist_one_atomic ty tasks event sequence snapshot s db) [
        | inl (p, w) ↦ inr (stored w)
        | inr (inl (n, p)) ↦ absurd (n q)
        | inr (inr (n, f, d, w)) ↦ absurd (n q)
      ]
      by_answer (err optimistic_lock) q =
          elim (persist_one_atomic ty tasks event sequence snapshot s db) [
            | inl (p, w) ↦ absurd (ground (arith, p, q))
            | inr (inl (n, p)) ↦ p
            | inr (inr (n, f, d, w)) ↦ locked tasks event sequence snapshot s db loss q f
          ]
      by_answer (err connection_error) q =
          elim (persist_one_atomic ty tasks event sequence snapshot s db) [
            | inl (p, w) ↦ inr (stored w)
            | inr (inl (n, p)) ↦ inl p
            | inr (inr (n, f, d, w)) ↦ inr (stored w)
          ]
      by_answer (err unknown_error) q =
          elim (persist_one_atomic ty tasks event sequence snapshot s db) [
            | inl (p, w) ↦ inr (stored w)
            | inr (inl (n, p)) ↦ inl p
            | inr (inr (n, f, d, w)) ↦ inr (stored w)
          ]

  pub persist_command-Persisted :
      (tasks : List (NewTask V)) (events : List (SerializedEvent V))
      (snapshot : Option (Text × V × ℕ)) (s : Statement) (db : Database V)
      → IsLoss s
      → let (answer, db') = persist_command ty tasks events snapshot s db in
        Persisted tasks answer db db'
  unfolding persist_command
  persist_command-Persisted tasks events snapshot s db loss =
      by_plan (write_plan events snapshot tasks) refl
    where
      by_plan :
          (plan : Result WriteValidationError (WritePlan V))
          → write_plan events snapshot tasks ≡ plan
          → let (answer, db') = persist_plan ty tasks s db plan in Persisted tasks answer db db'
      by_plan (err e) q = inl refl
      by_plan (ok no_op) q = elim (write_plan_accepts events snapshot tasks no_op q) [
        | inl (a, b, none_left, d) ↦ inl (none_left, refl)
        | inr (e, w, a, b, c, d, f) ↦ absurd (ground (arith, c))
      ]
      by_plan (ok (one_event event sequence write)) q =
          persist_one-Persisted tasks event sequence write s db loss
