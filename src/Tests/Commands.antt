-- ===== src/Tests/Commands.antt =====
-- The theorems on command retries at samples.
use account_management_servi.Base.{
  ℕ, zero, suc, ◌+◌, ◌-◌, ◌*◌, ◌/◌, ◌≤◌, true, Result, ok, err, leb, arith, List, ◌∷◌, [], ◌≡◌,
  some, text,
}
use account_management_servi.Command.{AggregateError, aggregate_conflict, unexpected_error}
use account_management_servi.Diagnostics.{
  Source, foreign, sqlx, database, LogLine, log_aggregate_error,
}
use account_management_servi.Diagnostics.Redaction.{IsRedacted, log_aggregate_error-IsRedacted}
use account_management_servi.Command.Retry.{
  Float, AggregateConflictRetryPolicy, base_backoff, backoff_bounds, backoff,
  retry_on_aggregate_conflict,
}
use account_management_servi.Command.Retry.Backoff.{backoff_within}
use account_management_servi.Command.Retry.Loop.{recorded, asleep, Settled, retry_settles}

-- The world counts down the conflicts that are left.
abbrev conflicted : ℕ → Result (AggregateError ℕ) (Unit {0}) × ℕ
conflicted zero = (ok tt, 0)
conflicted (suc w) = (err aggregate_conflict, w)

retry_settles_example :
    Settled 3 (retry_on_aggregate_conflict 3 (recorded conflicted) (asleep (λ n w. w)) ([], 2))
retry_settles_example = retry_settles 3 conflicted (λ n w. w) 2 (omega arith)

-- A ratio in per cent, whose products are rounded down.
abbrev percent : Float ℕ
percent = record {
  is_finite = λ x. true;
  in_unit = λ x. leb x 100;
  one_minus = λ x. 100 - x;
  one_plus = λ x. 100 + x;
  mul_f64 = λ d x. d * x / 100;
}

abbrev policy : AggregateConflictRetryPolicy ℕ
policy = record {
  max_attempts = 3;
  initial_backoff = 10_000_000;
  max_backoff = 100_000_000;
  jitter_ratio = 20;
}

backoff_within_example :
    let (lower, upper) = backoff_bounds percent policy 2 in
    (lower ≤ base_backoff policy 2)
    × (base_backoff policy 2 ≤ upper)
    × (upper ≤ policy.max_backoff)
    × (lower ≤ backoff percent policy 2 21_000_000)
    × (backoff percent policy 2 21_000_000 ≤ upper)
backoff_within_example = backoff_within percent policy 2 21_000_000

-- A wrapper around an error of the database whose code is not one of SQLSTATE, under an odd name.
abbrev wrapped : List Source
wrapped = foreign (text "user@example.com") ∷ sqlx (database (some (text "23-05"))) ∷ []

log_aggregate_error-IsRedacted_example :
    (l : LogLine) × ((log_aggregate_error {D = ℕ} (text "a b") unexpected_error wrapped ≡ some l)
      × IsRedacted l)
log_aggregate_error-IsRedacted_example =
    log_aggregate_error-IsRedacted {D = ℕ} (text "a b") unexpected_error wrapped
