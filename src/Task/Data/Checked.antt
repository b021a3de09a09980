-- ===== src/Task/Data/Checked.antt =====
-- What the checked constructors of task data establish (cqrs-runtime/src/task/data).
use account_management_servi.Base.{
  ℕ, ◌≤◌, ◌≡◌, ◌≢◌, ◌↔◌, true, [], text_eq_iff, arith, Result, ok, ℤ, is_positive, int_eq_iff,
}
use account_management_servi.Time.{as_millis, i64_max}
use account_management_servi.Task.Data.{
  Json, TaskFormat, format_eq, TaskSchedule, now, after, at, NewTask, TaskPayload, new_task,
  scheduled, with_metadata, with_max_attempts, TaskValidationError,
}

pub format_eq_iff : (a b : TaskFormat) → (format_eq a b ≡ true) ↔ (a ≡ b)
unfolding format_eq
format_eq_iff a b =
    ground (arith, text_eq_iff a.task_type b.task_type, int_eq_iff a.task_version b.task_version)

pub record IsFormat (f : TaskFormat) : Type 0 where
  pub typed : f.task_type ≢ []
  pub versioned : is_positive f.task_version ≡ true

abbrev pub IsSchedule : TaskSchedule → Type 0
IsSchedule now = Unit {0}
IsSchedule (after delay) = as_millis delay ≤ i64_max
IsSchedule (at t) = Unit {0}

-- A task that the outbox can store.
pub record IsPublishable {V : Type 0} (json : Json V) (t : NewTask V) : Type 0 where
  pub formatted : IsFormat t.format
  pub payload_object : json.is_object t.payload ≡ true
  pub metadata_object : json.is_object t.metadata ≡ true
  pub scheduled_soon : IsSchedule t.schedule
  pub limited : is_positive t.max_attempts ≡ true

-- The steps by which the source builds a task: from a payload, then any changes.
pub data Change (V : Type 0) : Type 0 where
  schedules : TaskSchedule → Change V
  describes : V → Change V
  limits : ℤ → Change V

module _ {V : Type 0} (json : Json V) where
  unfoldable pub change : NewTask V → Change V → Result TaskValidationError (NewTask V)
  unfolding scheduled with_metadata with_max_attempts
  change t (schedules s) = scheduled json t s
  change t (describes m) = with_metadata json t m
  change t (limits n) = with_max_attempts json t n

  pub new_task-IsPublishable :
      {T : Type 0} (p : TaskPayload V T) (id : ℕ) (payload : T) (t : NewTask V)
      → new_task json p id payload ≡ ok t
      → IsPublishable json t
  unfolding new_task
  new_task-IsPublishable p id payload t h = ground (arith, json.empty-IsObject)

  pub change-IsPublishable :
      (t u : NewTask V) (c : Change V)
      → IsPublishable json t
      → change t c ≡ ok u
      → IsPublishable json u
  unfolding change
  change-IsPublishable t u c v h = ground arith
