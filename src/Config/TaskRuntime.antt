-- ===== src/Config/TaskRuntime.antt =====
-- The checked budgets of the task runtime (cqrs-runtime/src/runtime/config.rs).
use account_management_servi.Base.{Result, ok, ◌>>=◌, ◌>>◌, map_err}
use account_management_servi.Config.{Lookup}
use account_management_servi.Config.Storage.{TaskStorageConfig, TaskStorageConfigError}
use account_management_servi.Config.Storage as Storage
use account_management_servi.Config.WorkerPool as WorkerPool
use account_management_servi.Runtime.PoolConfig.{
  TaskWorkerPoolConfig, TaskWorkerPoolConfigError, validate_for_storage_timeout,
}
use account_management_servi.Runtime.PoolConfig as PoolConfig

pub record TaskRuntimeConfig : Type 0 where
  pub storage : TaskStorageConfig
  pub worker : TaskWorkerPoolConfig

pub data TaskRuntimeConfigError : Type 0 where
  storage_error : TaskStorageConfigError → TaskRuntimeConfigError
  worker_error : TaskWorkerPoolConfigError → TaskRuntimeConfigError

unfoldable pub new :
    TaskStorageConfig → TaskWorkerPoolConfig → Result TaskRuntimeConfigError TaskRuntimeConfig
unfolding validate_for_storage_timeout
new storage worker = do
  map_err (validate_for_storage_timeout worker storage.storage_timeout) worker_error
  ok (record { storage = storage; worker = worker })

unfoldable pub from_lookup : Lookup → Result TaskRuntimeConfigError TaskRuntimeConfig
from_lookup lookup = do
  storage ← map_err (Storage.from_lookup lookup) storage_error
  worker ← map_err (WorkerPool.from_lookup lookup) worker_error
  new storage worker

unfoldable pub default : Result TaskRuntimeConfigError TaskRuntimeConfig
unfolding new
default = do
  storage ← map_err Storage.default storage_error
  worker ← map_err PoolConfig.default worker_error
  new storage worker
