-- ===== src/Runtime/PoolConfig.antt =====
-- The limits of the worker pool and the lease that they need
-- (cqrs-runtime/src/runtime/worker_pool_config.rs, cqrs-runtime/src/task/queue/storage_config.rs). A `usize` has
-- 64 bits.
use account_management_servi.Base.{
  ℕ, ◌+◌, ◌*◌, ◌/◌, ◌%◌, ◌≤◌, ◌<◌, ◌≡◌, ◌↔◌, ◌||◌, Option, none, some, ltb, leb, ◌==◌,
  if◌then◌else◌, Result, ok, err, ◌>>=◌, ok_or, arith, Text,
}
use account_management_servi.Time.{
  Duration, is_zero, as_millis, checked, checked_add, checked_mul, i64_max, u64_max, u128_max,
  from_secs, from_millis,
}
use account_management_servi.Task.Queue.{lease_safety_margin}

pub data TaskWorkerPoolConfigError : Type 0 where
  invalid_concurrency invalid_queue_capacity invalid_poll_interval : TaskWorkerPoolConfigError
  invalid_handler_timeout invalid_lease_duration invalid_storage_timeout : TaskWorkerPoolConfigError
  lease_budget_overflow lease_too_short : TaskWorkerPoolConfigError
  invalid_environment_value : (name : Text) → TaskWorkerPoolConfigError

pub record TaskWorkerPoolConfig : Type 0 where
  pub concurrency : ℕ
  pub queue_capacity : ℕ
  pub poll_interval : Duration
  pub handler_timeout : Duration
  pub lease_duration : Duration

-- `usize::MAX >> 3`.
abbrev pub max_queue_capacity : ℕ
max_queue_capacity = 2_305_843_009_213_693_951

unfoldable pub new :
    ℕ → ℕ → Duration → Duration → Duration → Result TaskWorkerPoolConfigError TaskWorkerPoolConfig
new concurrency queue_capacity poll_interval handler_timeout lease_duration =
    if concurrency == 0
    then err invalid_concurrency
    else if (queue_capacity == 0) || ltb max_queue_capacity queue_capacity
    then err invalid_queue_capacity
    else if is_zero poll_interval || ltb i64_max (as_millis poll_interval)
    then err invalid_poll_interval
    else if is_zero lease_duration || ltb i64_max (as_millis lease_duration)
    then err invalid_lease_duration
    else if is_zero handler_timeout || leb lease_duration handler_timeout
    then err invalid_handler_timeout
    else ok (record {
      concurrency = concurrency;
      queue_capacity = queue_capacity;
      poll_interval = poll_interval;
      handler_timeout = handler_timeout;
      lease_duration = lease_duration;
    })

abbrev pub default : Result TaskWorkerPoolConfigError TaskWorkerPoolConfig
default = new 128 128 (from_millis 1_000) (from_secs 15) (from_secs 60)

abbrev pub div_ceil : ℕ → ℕ → ℕ
div_ceil a b = if a % b == 0 then a / b else a / b + 1

-- `Duration::new` on whole seconds that fit an `u64` and the nanoseconds that remain.
abbrev pub queued_duration : ℕ → Option Duration
queued_duration nanos = if leb (nanos / 1_000_000_000) u64_max then some nanos else none

abbrev pub and_add : Option Duration → Duration → Option Duration
and_add none b = none
and_add (some a) b = checked_add a b

unfoldable pub validate_for_storage_timeout :
    TaskWorkerPoolConfig → Duration → Result TaskWorkerPoolConfigError (Unit {0})
validate_for_storage_timeout c storage_timeout =
    if is_zero storage_timeout then err invalid_storage_timeout else do
      let waves = div_ceil c.queue_capacity c.concurrency
      invocation ← ok_or (checked_add c.handler_timeout storage_timeout) lease_budget_overflow
      queued_nanos ← ok_or (checked u128_max (invocation * waves)) lease_budget_overflow
      queued ← ok_or (queued_duration queued_nanos) lease_budget_overflow
      required ←
          ok_or
            (and_add
              (and_add (and_add (checked_mul storage_timeout 2) c.handler_timeout)
                lease_safety_margin)
              queued)
            lease_budget_overflow
      if leb c.lease_duration required then err lease_too_short else ok tt

-- Limits that were checked.
abbrev pub IsValid : TaskWorkerPoolConfig → Type 0
IsValid c =
    (0 < c.concurrency)
    × (0 < c.queue_capacity)
    × (c.queue_capacity ≤ max_queue_capacity)
    × (0 < c.poll_interval)
    × (as_millis c.poll_interval ≤ i64_max)
    × (as_millis c.lease_duration ≤ i64_max)
    × (0 < c.handler_timeout)
    × (c.handler_timeout < c.lease_duration)

pub new-IsValid :
    (concurrency queue_capacity : ℕ) (poll handler lease : Duration) (c : TaskWorkerPoolConfig)
    → new concurrency queue_capacity poll handler lease ≡ ok c
    → IsValid c
unfolding new
new-IsValid concurrency queue_capacity poll handler lease c h = ground arith

-- On checked limits with a positive storage timeout the budget is accepted exactly if the lease is
-- longer than twice the storage timeout, the handler's timeout, the safety margin and, for each wave
-- of queued deliveries, a handler's and a storage timeout. No overflow check refuses a lease that is
-- long enough.
pub validate_for_storage_timeout_iff :
    (c : TaskWorkerPoolConfig) (storage : Duration)
    → IsValid c
    → 0 < storage
    → (validate_for_storage_timeout c storage ≡ ok tt) ↔ (
        storage * 2
          + c.handler_timeout
          + lease_safety_margin
          + (c.handler_timeout + storage) * div_ceil c.queue_capacity c.concurrency
        < c.lease_duration)
unfolding validate_for_storage_timeout
validate_for_storage_timeout_iff c storage v p = ground (arith, v)
