-- ===== src/Command/Retry.antt =====
-- The conflict retry policy and its loop (cqrs-runtime/src/command/retry.rs). Floating point and the
-- random draw are parameters; `retry - 1` is the source's `usize` subtraction, for the positive
-- `retry` that it asserts.
pub mod Backoff
pub mod Loop
use account_management_servi.Base.{
  ℕ, zero, suc, ◌+◌, ◌-◌, ◌^◌, ◌≡◌, Bool, true, false, not, ◌&&◌, ◌||◌, Option, none, some, leb,
  ltb, ◌==◌, if◌then◌else◌, min, max, Result, ok, err,
}
use account_management_servi.Time.{Duration, saturating_mul, as_millis, u32_max, i64_max}
use account_management_servi.Command.{AggregateError, aggregate_conflict}

-- What the source uses of `f64`.
pub record Float (F : Type 0) : Type 0 where
  pub is_finite : F → Bool
  pub in_unit : F → Bool
  pub one_minus : F → F
  pub one_plus : F → F
  pub mul_f64 : Duration → F → Duration

pub data AggregateConflictRetryPolicyError : Type 0 where
  invalid_attempt_limit invalid_backoff invalid_jitter : AggregateConflictRetryPolicyError

pub record AggregateConflictRetryPolicy (F : Type 0) : Type 0 where
  pub max_attempts : ℕ
  pub initial_backoff : Duration
  pub max_backoff : Duration
  pub jitter_ratio : F

module _ {F : Type 0} (float : Float F) where
  unfoldable pub new :
      ℕ
      → Duration
      → Duration
      → F
      → Result AggregateConflictRetryPolicyError (AggregateConflictRetryPolicy F)
  new max_attempts initial_backoff max_backoff jitter_ratio =
      if max_attempts == 0
      then err invalid_attempt_limit
      else if ltb max_backoff initial_backoff || ltb i64_max (as_millis max_backoff)
      then err invalid_backoff
      else if not (float.is_finite jitter_ratio) || not (float.in_unit jitter_ratio)
      then err invalid_jitter
      else ok (record {
        max_attempts = max_attempts;
        initial_backoff = initial_backoff;
        max_backoff = max_backoff;
        jitter_ratio = jitter_ratio;
      })

-- `2_u32.checked_pow(exponent).unwrap_or(u32::MAX)`.
abbrev pub multiplier : ℕ → ℕ
multiplier exponent = if ltb exponent 32 then 2 ^ exponent else u32_max

-- The backoff before jitter.
unfoldable pub base_backoff : {F : Type 0} → AggregateConflictRetryPolicy F → ℕ → Duration
base_backoff p retry =
    let exponent = (if leb (retry - 1) u32_max then retry - 1 else u32_max) in
    min (saturating_mul p.initial_backoff (multiplier exponent)) p.max_backoff

-- `Ord::clamp`, at an ordered pair of bounds.
abbrev pub clamp : Duration → Duration → Duration → Duration
clamp x lower upper = if ltb x lower then lower else if ltb upper x then upper else x

module _ {F : Type 0} (float : Float F) (p : AggregateConflictRetryPolicy F) (retry : ℕ) where
  unfoldable pub backoff_bounds : Duration × Duration
  backoff_bounds =
      let backoff = base_backoff p retry in
      (
        min (float.mul_f64 backoff (float.one_minus p.jitter_ratio)) backoff,
        max (min (float.mul_f64 backoff (float.one_plus p.jitter_ratio)) p.max_backoff) backoff,
      )

  -- `drawn` is the duration that the random draw between the bounds gives.
  unfoldable pub backoff : Duration → Duration
  unfolding backoff_bounds
  backoff drawn =
      let (lower, upper) = backoff_bounds in
      if lower == upper then lower else clamp drawn lower upper

abbrev pub is_conflict : {T D : Type 0} → Result (AggregateError D) T → Bool
is_conflict (err aggregate_conflict) = true
is_conflict _ = false

-- `retry_on_aggregate_conflict` over the world `W` that the operation and the waits change. `sleep n`
-- is the wait of `policy.backoff(n)`. The first argument counts the rounds left of the `for` loop; the
-- result is `none` at the `unreachable!` behind the loop.
module _ {T D W : Type 0} (max_attempts : ℕ) (operation : W → Result (AggregateError D) T × W)
    (sleep : ℕ → W → W) where
  unfoldable pub attempts : ℕ → ℕ → W → Option (Result (AggregateError D) T) × W
  attempts zero attempt w = (none, w)
  attempts (suc left) attempt w =
      let (result, w') = operation w in
      elim (is_conflict result && ltb attempt max_attempts) [
        | true ↦ attempts left (suc attempt) (sleep attempt w')
        | false ↦ (some result, w')
      ]

  unfoldable pub retry_on_aggregate_conflict : W → Option (Result (AggregateError D) T) × W
  unfolding attempts
  retry_on_aggregate_conflict w = attempts max_attempts 1 w
