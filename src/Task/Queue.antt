-- ===== src/Task/Queue.antt =====
-- The vocabulary of the durable queue (cqrs-runtime/src/task/queue): errors, leases, settlement
-- requests and results, and the redelivery backoff.
use account_management_servi.Base.{
  ℕ, ◌+◌, ◌-◌, ◌*◌, ◌^◌, Bool, true, false, Option, none, some, List, Text, text, length, min, ℤ,
  to_nat,
}
use account_management_servi.Time.{Duration, Instant, from_secs}
use account_management_servi.Task.Data.{TaskFormat, TaskAttempt}

pub data QueueRequestError : Type 0 where
  invalid_limit invalid_lease_duration invalid_retry_delay : QueueRequestError

pub data TaskProcessingError : Type 0 where
  invalid_request : QueueRequestError → TaskProcessingError
  invalid_delivery invalid_execution_budget unavailable : TaskProcessingError
  timed_out lease_budget_exhausted : TaskProcessingError

pub data SettlementRequest : Type 0 where
  completed : SettlementRequest
  retry : (delay : Duration) (reason : Text) → SettlementRequest
  failed : (reason : Text) → SettlementRequest

pub data TaskFailureCause : Type 0 where
  permanent_rejection attempt_limit_reached lease_expired : TaskFailureCause

unfoldable pub as_str : TaskFailureCause → Text
as_str permanent_rejection = text "permanent failure"
as_str attempt_limit_reached = text "retry limit reached"
as_str lease_expired = text "worker lease expired"

pub record TaskFailure : Type 0 where
  pub id : ℕ
  pub format : TaskFormat
  pub attempt : ℤ
  pub cause : TaskFailureCause

pub data SettlementResult : Type 0 where
  ownership_lost completed_result retry_scheduled : SettlementResult
  failed_result : TaskFailure → SettlementResult

unfoldable pub is_applied : SettlementResult → Bool
is_applied ownership_lost = false
is_applied _ = true

unfoldable pub failure : SettlementResult → Option TaskFailure
failure (failed_result f) = some f
failure _ = none

pub record LeaseRecoveryReport : Type 0 where
  pub retried_count : ℕ
  pub failures : List TaskFailure

unfoldable pub processed_count : LeaseRecoveryReport → ℕ
processed_count r = r.retried_count + length r.failures

abbrev pub lease_safety_margin : Duration
lease_safety_margin = from_secs 5

pub record TaskLease : Type 0 where
  pub lock_token : ℕ
  pub deadline : Instant

pub record LeasedTask (V : Type 0) : Type 0 where
  pub attempt : TaskAttempt V
  pub lease : TaskLease

-- The seconds before jitter: 5, 10, 20, … and at most 300. `saturating_sub` and `clamp` keep the
-- exponent between 0 and 6, also for an attempt that is not positive.
unfoldable pub redelivery_base : ℤ → ℕ
redelivery_base attempt = min (5 * 2 ^ min (to_nat attempt - 1) 6) 300

-- `jittered` is the duration that the random factor gives of the base, before it is cut at 300 seconds.
unfoldable pub redelivery_backoff : (ℕ → Duration) → ℤ → Duration
unfolding redelivery_base
redelivery_backoff jittered attempt = min (jittered (redelivery_base attempt)) (from_secs 300)
