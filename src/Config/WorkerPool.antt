-- ===== src/Config/WorkerPool.antt =====
-- The worker pool's settings (cqrs-runtime/src/runtime/worker_pool_config.rs).
use account_management_servi.Base.{ℕ, Text, text, Result, ◌>>=◌, map_err, ok_or}
use account_management_servi.Time.{checked, from_millis, from_secs, u64_max}
use account_management_servi.Config.{Lookup, read_u64}
use account_management_servi.Runtime.PoolConfig.{
  TaskWorkerPoolConfig, TaskWorkerPoolConfigError, invalid_environment_value, invalid_concurrency,
  invalid_queue_capacity, new,
}

-- The closure `read_u64` of `from_lookup`.
abbrev pub read : Lookup → Text → ℕ → Result TaskWorkerPoolConfigError ℕ
read lookup name default =
    map_err (read_u64 lookup name default) (λ _. invalid_environment_value name)

unfoldable pub from_lookup : Lookup → Result TaskWorkerPoolConfigError TaskWorkerPoolConfig
unfolding new
from_lookup lookup = do
  workers ← read lookup (text "OUTBOX_WORKER_CONCURRENCY") 128
  concurrency ← ok_or (checked u64_max workers) invalid_concurrency
  waiting ← read lookup (text "OUTBOX_QUEUE_CAPACITY") 128
  queue_capacity ← ok_or (checked u64_max waiting) invalid_queue_capacity
  poll_interval ← read lookup (text "OUTBOX_POLL_INTERVAL_MS") 1_000
  handler_timeout ← read lookup (text "OUTBOX_HANDLER_TIMEOUT_SECS") 15
  lease ← read lookup (text "OUTBOX_LEASE_SECS") 60
  new concurrency queue_capacity (from_millis poll_interval) (from_secs handler_timeout)
      (from_secs lease)
