-- ===== src/Postgres/WritePlan.antt =====
-- The decisions on a write that are checked before any SQL
-- (cqrs-runtime/src/postgres/event_repository_with_outbox/write_plan.rs). A `usize` has 64 bits.
use account_management_servi.Base.{
  ℕ, ◌+◌, ◌*◌, ◌≤◌, ◌<◌, ◌≡◌, ◌↔◌, Bool, false, Option, none, some, List, [], ◌∷◌, Text, length,
  ltb, ◌==◌, if◌then◌else◌, Result, ok, err, ◌>>=◌, ◌>>◌, ok_or, arith, refl, inl, inr, ◌⊎◌,
  Result-cases,
}
use account_management_servi.Time.{u16_max, i64_max, u64_max, checked}
use account_management_servi.Task.Data.{NewTask}

pub record SerializedEvent (V : Type 0) : Type 0 where
  pub aggregate_id : Text
  pub sequence : ℕ
  pub event_type : Text
  pub event_version : Text
  pub payload : V
  pub metadata : V

pub data SnapshotWrite (V : Type 0) : Type 0 where
  none_written : SnapshotWrite V
  insert update : (aggregate_id : Text) (payload : V) (version : ℕ) → SnapshotWrite V

pub data WritePlan (V : Type 0) : Type 0 where
  no_op : WritePlan V
  one_event : (event : SerializedEvent V) (sequence : ℕ) (snapshot : SnapshotWrite V) → WritePlan V

pub data WriteValidationError : Type 0 where
  multiple_events snapshot_without_event tasks_without_event : WriteValidationError
  sequence_overflow bind_limit_exceeded : WriteValidationError

abbrev pub sequence_as_i64 : ℕ → Result WriteValidationError ℕ
sequence_as_i64 sequence = ok_or (checked i64_max sequence) sequence_overflow

abbrev pub usize_mul : ℕ → ℕ → Option ℕ
usize_mul a b = checked u64_max (a * b)

abbrev pub and_add : Option ℕ → ℕ → Option ℕ
and_add none b = none
and_add (some a) b = checked u64_max (a + b)

abbrev pub below_limit : Option ℕ → Bool
below_limit none = false
below_limit (some count) = ltb count u16_max

unfoldable pub validate_bind_count : ℕ → ℕ → Result WriteValidationError (Unit {0})
validate_bind_count tasks snapshot_binds =
    if below_limit (and_add (and_add (usize_mul tasks 11) 7) snapshot_binds)
    then ok tt
    else err bind_limit_exceeded

module _ {V : Type 0} where
  unfoldable pub bind_count : SnapshotWrite V → ℕ
  bind_count none_written = 0
  bind_count (insert aggregate_id payload version) = 5
  bind_count (update aggregate_id payload version) = 6

  unfoldable pub snapshot_write :
      Option (Text × V × ℕ) → Result WriteValidationError (SnapshotWrite V)
  snapshot_write none = ok none_written
  snapshot_write (some (aggregate_id, payload, version)) = do
    version ← sequence_as_i64 version
    ok (
        if version == 1
        then insert aggregate_id payload version
        else update aggregate_id payload version)

  unfoldable pub write_plan :
      List (SerializedEvent V)
      → Option (Text × V × ℕ)
      → List (NewTask V)
      → Result WriteValidationError (WritePlan V)
  unfolding validate_bind_count snapshot_write bind_count
  write_plan [] (some snapshot) tasks = err snapshot_without_event
  write_plan [] none (t ∷ ts) = err tasks_without_event
  write_plan [] none [] = ok no_op
  write_plan (event ∷ []) snapshot tasks = do
    snapshot ← snapshot_write snapshot
    validate_bind_count (length tasks) (bind_count snapshot)
    sequence ← sequence_as_i64 event.sequence
    ok (one_event event sequence snapshot)
  write_plan (e ∷ f ∷ es) snapshot tasks = err multiple_events

-- A number of tasks and snapshot parameters is accepted exactly if, at 11 parameters for each task
-- and 7 for the event, all stay below 65535; the overflow checks refuse nothing else.
pub validate_bind_count_iff :
    (tasks binds : ℕ)
    → (validate_bind_count tasks binds ≡ ok tt) ↔ (tasks * 11 + 7 + binds < u16_max)
unfolding validate_bind_count
validate_bind_count_iff tasks binds = ground arith

module _ {V : Type 0} where
  -- A write is accepted only in two shapes: nothing at all, which is planned as no operation; or
  -- exactly one event, whose sequence number fits a bigint, with a snapshot, if any, whose version
  -- does, and so many tasks that the bind parameters stay below the limit.
  pub write_plan_accepts :
      (events : List (SerializedEvent V)) (snapshot : Option (Text × V × ℕ))
      (tasks : List (NewTask V)) (plan : WritePlan V)
      → write_plan events snapshot tasks ≡ ok plan
      → ((events ≡ []) × (snapshot ≡ none) × (tasks ≡ []) × (plan ≡ no_op))
        ⊎ ((event : SerializedEvent V) × (write : SnapshotWrite V) × (events ≡ event ∷ [])
            × (snapshot_write snapshot ≡ ok write)
            × (plan ≡ one_event event event.sequence write)
            × (event.sequence ≤ i64_max)
            × (length tasks * 11 + 7 + bind_count write < u16_max))
  unfolding write_plan
  write_plan_accepts [] none [] plan h = inl (refl, refl, refl, ground (arith, h))
  write_plan_accepts [] none (t ∷ ts) plan h = absurd (ground (arith, h))
  write_plan_accepts [] (some s) tasks plan h = absurd (ground (arith, h))
  write_plan_accepts (e ∷ f ∷ es) s tasks plan h = absurd (ground (arith, h))
  write_plan_accepts (e ∷ []) s tasks plan h = elim (Result-cases (snapshot_write s)) [
    | inl (x, p) ↦ absurd (ground (arith, p, h))
    | inr (w, p) ↦
        inr (e, w, refl, p, ground (arith, p, h), ground (arith, p, h), ground (arith, p, h))
  ]

  pub write_plan_one :
      (event : SerializedEvent V) (snapshot : Option (Text × V × ℕ)) (tasks : List (NewTask V))
      (write : SnapshotWrite V)
      → snapshot_write snapshot ≡ ok write
      → event.sequence ≤ i64_max
      → length tasks * 11 + 7 + bind_count write < u16_max
      → write_plan (event ∷ []) snapshot tasks ≡ ok (one_event event event.sequence write)
  unfolding write_plan
  write_plan_one event snapshot tasks write p q r = ground (arith, p, q, r)
