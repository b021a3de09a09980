-- ===== src/Tests/Runtime.antt =====
-- The theorems on the worker pool at samples: the default limits, and a queue that hands out one task for
-- each claim.
use account_management_servi.Base.{
  ℕ, ◌+◌, ◌*◌, ◌<◌, ◌≡◌, ◌↔◌, refl, some, List, [], ◌∷◌, Result, ok, err, arith, zero, suc, Bool,
  ltb, text_eq, if◌then◌else◌,
}
use account_management_servi.Time.{from_secs, from_millis}
use account_management_servi.Task.Queue.{lease_safety_margin, unavailable}
use account_management_servi.Runtime.PoolConfig.{
  TaskWorkerPoolConfig, new, default, validate_for_storage_timeout, div_ceil, IsValid, new-IsValid,
  validate_for_storage_timeout_iff,
}
use account_management_servi.Runtime.Poller.{Poller, QueueClaim, HonoursLimit, claim}
use account_management_servi.Runtime.Poller.Batches.{Returned, recorded, claim-Returned}
use account_management_servi.Task.Data.{TaskFormat, format_eq}
use account_management_servi.Task.Dispatcher.{TaskDispatcher, TaskDispatcherError}
use account_management_servi.Command.Retry.Loop.{counted}
use account_management_servi.Runtime.Preparation.{
  formats_eq, formats_mismatch, prepare, build_from, build_checked_dispatcher,
}
use account_management_servi.Runtime.Preparation.Prepared.{IsPrepared, prepare-IsPrepared}
use account_management_servi.Tests.Samples.{sample_format}

abbrev limits : TaskWorkerPoolConfig
limits = record {
  concurrency = 128;
  queue_capacity = 128;
  poll_interval = from_millis 1_000;
  handler_timeout = from_secs 15;
  lease_duration = from_secs 60;
}

default-limits : default ≡ ok limits
unfolding new
default-limits = refl

limits-IsValid : IsValid limits
limits-IsValid =
    new-IsValid 128 128 (from_millis 1_000) (from_secs 15) (from_secs 60) limits default-limits

default_lease_example : (validate_for_storage_timeout limits (from_secs 6) ≡ ok tt) ↔ (
    from_secs 6 * 2
      + from_secs 15
      + lease_safety_margin
      + (from_secs 15 + from_secs 6) * div_ceil 128 128
    < from_secs 60)
default_lease_example =
    validate_for_storage_timeout_iff limits (from_secs 6) limits-IsValid (omega arith)

-- The world counts the claims; the third fails.
abbrev single : QueueClaim ℕ ℕ
single f zero w = (some (ok []), w)
single f (suc limit) zero = (some (ok (0 ∷ [])), 1)
single f (suc limit) (suc zero) = (some (ok (1 ∷ [])), 2)
single f (suc limit) (suc (suc w)) = (some (err unavailable), suc (suc w))

single-HonoursLimit : HonoursLimit single
single-HonoursLimit f zero w w' tasks h = ground (arith, h)
single-HonoursLimit f (suc limit) zero w' tasks h = ground (arith, h)
single-HonoursLimit f (suc limit) (suc zero) w' tasks h = ground (arith, h)
single-HonoursLimit f (suc limit) (suc (suc w)) w' tasks h = ground (arith, h)

abbrev poller : Poller
poller = record {
  formats = sample_format ∷ sample_format ∷ sample_format ∷ [];
  next_format_start = 1;
}

claim-Returned_example :
    let (out, p', (log, w')) = claim (recorded single) poller 5 ([], 0) in Returned out log
claim-Returned_example = claim-Returned single poller 5 0

-- A factory whose third dispatcher has no format, and the pools of two and of three workers.
abbrev serving : List TaskFormat → TaskDispatcher Bool ℕ
serving formats = record { adapters = []; formats = formats; routes = [] }

abbrev factory : ℕ → Result TaskDispatcherError (TaskDispatcher Bool ℕ) × ℕ
factory k = (ok (serving (if ltb k 2 then sample_format ∷ [] else [])), suc k)

prepare-IsPrepared_example : IsPrepared 3 (prepare (counted factory) 3 (0, 0))
prepare-IsPrepared_example = prepare-IsPrepared factory 3 0 (omega arith)

two_workers :
    (prepare factory 2 0).0 ≡ ok (serving (sample_format ∷ []) ∷ serving (sample_format ∷ []) ∷ [])
unfolding prepare build_from build_checked_dispatcher formats_eq format_eq text_eq
two_workers = refl

third_differs : (prepare factory 3 0).0 ≡ err (formats_mismatch 2)
unfolding prepare build_from build_checked_dispatcher formats_eq format_eq text_eq
third_differs = refl
