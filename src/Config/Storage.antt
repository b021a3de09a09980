-- ===== src/Config/Storage.antt =====
-- The storage budget of tasks (cqrs-runtime/src/task/queue/storage_config.rs).
use account_management_servi.Base.{◌||◌, text, ltb, if◌then◌else◌, Result, ok, err, ◌>>=◌, map_err}
use account_management_servi.Time.{Duration, is_zero, as_millis, from_millis, i64_max}
use account_management_servi.Config.{Lookup, read_u64}

pub record TaskStorageConfig : Type 0 where
  pub storage_timeout : Duration

pub data TaskStorageConfigError : Type 0 where
  invalid_environment_value invalid_storage_timeout : TaskStorageConfigError

unfoldable pub new : Duration → Result TaskStorageConfigError TaskStorageConfig
new storage_timeout =
    if is_zero storage_timeout || ltb i64_max (as_millis storage_timeout)
    then err invalid_storage_timeout
    else ok (record { storage_timeout = storage_timeout })

abbrev pub default : Result TaskStorageConfigError TaskStorageConfig
default = new (from_millis 6_000)

unfoldable pub from_lookup : Lookup → Result TaskStorageConfigError TaskStorageConfig
unfolding new read_u64
from_lookup lookup = do
  millis ←
      map_err (read_u64 lookup (text "OUTBOX_STORAGE_TIMEOUT_MS") 6_000)
        (λ _. invalid_environment_value)
  new (from_millis millis)
