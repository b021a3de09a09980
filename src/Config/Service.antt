-- ===== src/Config/Service.antt =====
-- The settings of the service (account-managements-service/src/config.rs). The parsers of database URLs,
-- socket addresses and log levels are parameters; of an error the sources are left out.
use account_management_servi.Base.{
  ℕ, ◌+◌, Bool, true, false, ◌&&◌, ◌||◌, Option, none, some, map, List, [], ◌∷◌, Text, text,
  text_eq, leb, ◌==◌, if◌then◌else◌, Result, ok, err, ◌>>=◌, map_err, ok_or, guard, ◌>>◌,
}
use account_management_servi.Config.{Lookup}
use account_management_servi.Config.Logging.{LoggingConfig}
use account_management_servi.Config.Logging as Logging
use account_management_servi.Config.TaskRuntime.{TaskRuntimeConfig, TaskRuntimeConfigError}
use account_management_servi.Config.TaskRuntime as TaskRuntime
use account_management_servi.Config.TaskQueue.{
  PostgresTaskQueueConfig, PostgresTaskQueueConfigError,
}
use account_management_servi.Config.TaskQueue as TaskQueue

abbrev pub env_keys : List Text
env_keys =
    text "DATABASE_URL"
    ∷ text "BIND_ADDRESS"
    ∷ text "RUST_LOG"
    ∷ text "OUTBOX_STORAGE_TIMEOUT_MS"
    ∷ text "OUTBOX_WORKER_CONCURRENCY"
    ∷ text "OUTBOX_QUEUE_CAPACITY"
    ∷ text "OUTBOX_POLL_INTERVAL_MS"
    ∷ text "OUTBOX_HANDLER_TIMEOUT_SECS"
    ∷ text "OUTBOX_LEASE_SECS"
    ∷ text "OUTBOX_POSTGRES_STATEMENT_TIMEOUT_MS"
    ∷ []

pub record ServiceConfig (D A L : Type 0) : Type 0 where
  pub database : D
  pub bind_address : A
  pub logging : LoggingConfig L
  pub task_runtime : TaskRuntimeConfig
  pub task_queue : PostgresTaskQueueConfig

pub data ServiceConfigError : Type 0 where
  missing : Text → ServiceConfigError
  non_unicode : Text → ServiceConfigError
  database_scheme database bind logging : ServiceConfigError
  tasks : TaskRuntimeConfigError → ServiceConfigError
  postgres_queue : PostgresTaskQueueConfigError → ServiceConfigError

pub data VarError : Type 0 where
  not_present not_unicode : VarError

-- `str::starts_with`.
unfoldable pub starts_with : Text → Text → Bool
starts_with [] prefix = elim prefix [ [] ↦ true | c ∷ rest ↦ false ]
starts_with (x ∷ xs) prefix = elim prefix [ [] ↦ true | c ∷ rest ↦ (x == c) && starts_with xs rest ]

-- The part of `split_once` before the separator.
unfoldable pub before : Text → Text → Option Text
unfolding starts_with
before separator [] = if starts_with [] separator then some [] else none
before separator (x ∷ xs) =
    let rest = before separator xs in
    if starts_with (x ∷ xs) separator
    then some []
    else elim rest [ none ↦ none | some s ↦ some (x ∷ s) ]

abbrev pub to_ascii_lowercase : ℕ → ℕ
to_ascii_lowercase c = if leb 65 c && leb c 90 then c + 32 else c

abbrev pub eq_ignore_ascii_case : Text → Text → Bool
eq_ignore_ascii_case s t = text_eq (map to_ascii_lowercase s) (map to_ascii_lowercase t)

-- The test of the scheme of `DATABASE_URL`.
unfoldable pub has_postgres_scheme : Text → Bool
unfolding before text_eq
has_postgres_scheme url = elim (before (text "://") url) [
  | none ↦ false
  | some scheme ↦
      eq_ignore_ascii_case scheme (text "postgres")
      || eq_ignore_ascii_case scheme (text "postgresql")
]

-- `HashMap::insert` and `get`.
abbrev pub Settings : Type 0
Settings = List (Text × Text)

unfoldable pub get : Settings → Lookup
get [] name = none
get ((key, value) ∷ settings) name =
    let rest = get settings name in if text_eq key name then some value else rest

-- The loop over the names, from the settings so far.
unfoldable pub collect :
    (Text → Result VarError Text) → List Text → Settings → Result ServiceConfigError Settings
collect read [] settings = ok settings
collect read (name ∷ names) settings = elim (read name) [
  | ok value ↦ collect read names ((name, value) ∷ settings)
  | err not_present ↦ collect read names settings
  | err not_unicode ↦ err (non_unicode name)
]

module _ {D A L : Type 0} (parse_database : Text → Option D) (parse_address : Text → Option A)
    (parse_level : Text → Option L) where
  unfoldable pub from_lookup : Lookup → Result ServiceConfigError (ServiceConfig D A L)
  from_lookup lookup = do
    url ← ok_or (lookup (text "DATABASE_URL")) (missing (text "DATABASE_URL"))
    guard (has_postgres_scheme url) database_scheme
    database_options ← ok_or (parse_database url) database
    address ← ok_or (lookup (text "BIND_ADDRESS")) (missing (text "BIND_ADDRESS"))
    bind_address ← ok_or (parse_address address) bind
    log ← map_err (Logging.from_lookup parse_level lookup) (λ _. logging)
    task_runtime ← map_err (TaskRuntime.from_lookup lookup) tasks
    task_queue ← map_err (TaskQueue.from_lookup lookup) postgres_queue
    ok (record {
      database = database_options;
      bind_address = bind_address;
      logging = log;
      task_runtime = task_runtime;
      task_queue = task_queue;
    })

  unfoldable pub from_environment :
      (Text → Result VarError Text) → Result ServiceConfigError (ServiceConfig D A L)
  unfolding collect get
  from_environment read = do settings ← collect read env_keys []; from_lookup (get settings)
