-- ===== src/Tests/Config.antt =====
-- The theorems on settings at samples.
use account_management_servi.Base.{
  ◌≡◌, ◌≢◌, ◌↔◌, Option, none, some, Text, text, text_eq, In, Result, ok, err, arith, if◌then◌else◌,
}
use account_management_servi.Base.{refl, false}
use account_management_servi.Config.{read_u64}
use account_management_servi.Config.Storage as Storage
use account_management_servi.Config.WorkerPool as WorkerPool
use account_management_servi.Config.TaskRuntime as TaskRuntime
use account_management_servi.Runtime.PoolConfig as PoolConfig
use account_management_servi.Runtime.PoolConfig.{validate_for_storage_timeout}
use account_management_servi.Runtime.Preparation.{run}
use account_management_servi.System.Start.{factory, copies, run_lem}
use account_management_servi.Application.Tasks.Wiring.{dispatcher}
use account_management_servi.Tests.Memory.{services}
use account_management_servi.Time.{from_millis, from_secs}
use account_management_servi.Config.{Lookup}
use account_management_servi.Config.TaskRuntime.{TaskRuntimeConfig, from_lookup}
use account_management_servi.Config.Loaded.{IsLoaded, from_lookup_iff}
use account_management_servi.Config.Service.{
  VarError, not_present, not_unicode, env_keys, from_environment,
}
use account_management_servi.Config.Service as Service
use account_management_servi.Config.Environment.{present, from_environment_lem}

-- A longer lease than by default, for a longer queue.
abbrev long_queue : Lookup
long_queue name =
    if text_eq name (text "OUTBOX_QUEUE_CAPACITY")
    then some (text "129")
    else if text_eq name (text "OUTBOX_LEASE_SECS")
    then some (text "75")
    else none

abbrev long_config : TaskRuntimeConfig
long_config = record {
  storage = record { storage_timeout = from_millis 6_000 };
  worker = record {
    concurrency = 128;
    queue_capacity = 129;
    poll_interval = from_millis 1_000;
    handler_timeout = from_secs 15;
    lease_duration = from_secs 75;
  };
}

from_lookup_iff_example :
    (from_lookup long_queue ≡ ok long_config) ↔ IsLoaded long_queue long_config
from_lookup_iff_example = from_lookup_iff long_queue long_config

abbrev variables : Text → Result VarError Text
variables name =
    if text_eq name (text "DATABASE_URL")
    then ok (text "postgres://localhost/service")
    else if text_eq name (text "BIND_ADDRESS")
    then ok (text "127.0.0.1:0")
    else err not_present

abbrev read_as : Text → Option Text
read_as s = some s

readable : (key : Text) → In key env_keys → variables key ≢ err not_unicode
readable key m h = ground (arith, h)

from_environment_lem_example :
    from_environment read_as read_as read_as variables
    ≡ Service.from_lookup read_as read_as read_as (present variables)
from_environment_lem_example = from_environment_lem read_as read_as read_as variables readable

abbrev default_config : TaskRuntimeConfig
default_config = record {
  storage = record { storage_timeout = from_millis 6_000 };
  worker = record {
    concurrency = 128;
    queue_capacity = 128;
    poll_interval = from_millis 1_000;
    handler_timeout = from_secs 15;
    lease_duration = from_secs 60;
  };
}

default_loaded : from_lookup (λ name. none) ≡ ok default_config
unfolding from_lookup Storage.from_lookup WorkerPool.from_lookup TaskRuntime.new Storage.new
    PoolConfig.new read_u64 validate_for_storage_timeout
default_loaded = refl

run_lem_example :
    run {S = Unit {0}}
      (factory services (λ n. text "1"))
      default_config.worker
      (from_millis 6_000)
      false
      tt
    ≡ (ok (some (copies 128 (dispatcher services (λ n. text "1")))), tt)
run_lem_example = run_lem services (λ n. text "1") (λ name. none) default_config tt default_loaded
