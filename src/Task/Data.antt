-- ===== src/Task/Data.antt =====
-- Published tasks and delivered attempts (cqrs-runtime/src/task/data). A JSON value is of a type `V`;
-- what the source uses of serde_json is the record `Json`. Generated UUIDs are arguments.
pub mod Checked
use account_management_servi.Base.{
  ℕ, ◌≡◌, Bool, true, not, ◌&&◌, Option, none, some, Text, text_eq, is_empty, ltb, if◌then◌else◌,
  Result, ok, err, ◌>>=◌, ◌>>◌, guard, ok_or, map_err, ℤ, pos, is_positive, int_eq,
}
use account_management_servi.Time.{Duration, as_millis, i64_max}

pub record Json (V : Type 0) : Type 0 where
  pub is_object : V → Bool
  -- `json!({})`.
  pub empty : V
  pub empty-IsObject : is_object empty ≡ true

pub data TaskFormatError : Type 0 where
  empty_type invalid_version : TaskFormatError

pub record TaskFormat : Type 0 where
  pub task_type : Text
  pub task_version : ℤ

-- The derived `PartialEq`, by which formats are routed.
unfoldable pub format_eq : TaskFormat → TaskFormat → Bool
format_eq a b = text_eq a.task_type b.task_type && int_eq a.task_version b.task_version

unfoldable pub new_format : Text → ℤ → Result TaskFormatError TaskFormat
new_format task_type task_version =
    if is_empty task_type
    then err empty_type
    else if not (is_positive task_version)
    then err invalid_version
    else ok (record { task_type = task_type; task_version = task_version })

pub data TaskValidationError : Type 0 where
  format : TaskFormatError → TaskValidationError
  serialization payload_not_object metadata_not_object : TaskValidationError
  invalid_attempt_limit invalid_attempt invalid_schedule : TaskValidationError

pub data TaskSchedule : Type 0 where
  now : TaskSchedule
  after : Duration → TaskSchedule
  at : ℕ → TaskSchedule

unfoldable pub validate_schedule : TaskSchedule → Result TaskValidationError (Unit {0})
validate_schedule (after delay) =
    if ltb i64_max (as_millis delay) then err invalid_schedule else ok tt
validate_schedule _ = ok tt

pub record NewTask (V : Type 0) : Type 0 where
  pub id : ℕ
  pub format : TaskFormat
  pub payload : V
  pub metadata : V
  pub schedule : TaskSchedule
  pub max_attempts : ℤ

-- One delivery's business input.
pub record TaskAttempt (V : Type 0) : Type 0 where
  pub id : ℕ
  pub format : TaskFormat
  pub payload : V
  pub metadata : V
  pub number : ℤ

-- A payload type: its format's constants and its serialisation, which may fail.
pub record TaskPayload (V T : Type 0) : Type 0 where
  pub task_type : Text
  pub task_version : ℤ
  pub to_value : T → Option V

abbrev pub default_max_attempts : ℤ
default_max_attempts = pos 10

module _ {V : Type 0} (json : Json V) where
  unfoldable pub validate_payload : V → Result TaskValidationError (Unit {0})
  validate_payload payload = guard (json.is_object payload) payload_not_object

  unfoldable pub validate_metadata : V → Result TaskValidationError (Unit {0})
  validate_metadata metadata = guard (json.is_object metadata) metadata_not_object

  unfoldable pub from_payload : ℕ → TaskFormat → V → Result TaskValidationError (NewTask V)
  unfolding validate_payload
  from_payload id f payload = do
    validate_payload payload
    ok (record {
      id = id;
      format = f;
      payload = payload;
      metadata = json.empty;
      schedule = now;
      max_attempts = default_max_attempts;
    })

  unfoldable pub new_task :
      {T : Type 0} → TaskPayload V T → ℕ → T → Result TaskValidationError (NewTask V)
  unfolding new_format from_payload
  new_task p id payload = do
    f ← map_err (new_format p.task_type p.task_version) format
    value ← ok_or (p.to_value payload) serialization
    from_payload id f value

  unfoldable pub scheduled : NewTask V → TaskSchedule → Result TaskValidationError (NewTask V)
  unfolding validate_schedule
  scheduled task schedule = do validate_schedule schedule; ok (record task { schedule = schedule })

  unfoldable pub with_metadata : NewTask V → V → Result TaskValidationError (NewTask V)
  unfolding validate_metadata
  with_metadata task metadata = do
    validate_metadata metadata
    ok (record task { metadata = metadata })

  unfoldable pub with_max_attempts : NewTask V → ℤ → Result TaskValidationError (NewTask V)
  with_max_attempts task max_attempts =
      if not (is_positive max_attempts)
      then err invalid_attempt_limit
      else ok (record task { max_attempts = max_attempts })

  unfoldable pub new_attempt :
      ℕ → TaskFormat → V → V → ℤ → Result TaskValidationError (TaskAttempt V)
  unfolding validate_payload validate_metadata
  new_attempt id f payload metadata number = do
    validate_payload payload
    validate_metadata metadata
    if not (is_positive number)
        then err invalid_attempt
        else ok (record {
          id = id;
          format = f;
          payload = payload;
          metadata = metadata;
          number = number;
        })
