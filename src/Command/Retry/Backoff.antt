-- ===== src/Command/Retry/Backoff.antt =====
-- Bounds of the retry backoff (cqrs-runtime/src/command/retry.rs), whatever floating point does.
use account_management_servi.Base.{ℕ, ◌≤◌, arith}
use account_management_servi.Command.Retry.{
  Float, AggregateConflictRetryPolicy, base_backoff, backoff_bounds, backoff,
}

base-le-max :
    {F : Type 0} (p : AggregateConflictRetryPolicy F) (retry : ℕ)
    → base_backoff p retry ≤ p.max_backoff
unfolding base_backoff
base-le-max p retry = omega arith

-- The jittered backoff lies between its bounds, and these enclose the exponential backoff and stay
-- under the policy's maximum, for every result of floating-point arithmetic and of the random draw.
pub backoff_within :
    {F : Type 0} (float : Float F) (p : AggregateConflictRetryPolicy F) (retry drawn : ℕ)
    → let (lower, upper) = backoff_bounds float p retry in
      (lower ≤ base_backoff p retry)
      × (base_backoff p retry ≤ upper)
      × (upper ≤ p.max_backoff)
      × (lower ≤ backoff float p retry drawn)
      × (backoff float p retry drawn ≤ upper)
unfolding backoff_bounds backoff
backoff_within float p retry drawn = ground (arith, base-le-max p retry)
