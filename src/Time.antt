-- ===== src/Time.antt =====
-- Durations and instants of Rust's standard library, in nanoseconds. A `Duration` has a `u64` of
-- seconds, so its checked operations fail above `duration_max`; an `Instant` counts from the earliest
-- one that the platform represents.
use account_management_servi.Base.{
  ℕ, ◌+◌, ◌-◌, ◌*◌, ◌/◌, Bool, Option, none, some, leb, ltb, ◌==◌, if◌then◌else◌, min,
}

abbrev pub Duration : Type 0
Duration = ℕ

abbrev pub Instant : Type 0
Instant = ℕ

abbrev pub duration_max : ℕ
duration_max = 18_446_744_073_709_551_615_999_999_999

abbrev pub u16_max : ℕ
u16_max = 65_535

abbrev pub i32_max : ℕ
i32_max = 2_147_483_647

abbrev pub u32_max : ℕ
u32_max = 4_294_967_295

abbrev pub i64_max : ℕ
i64_max = 9_223_372_036_854_775_807

abbrev pub u64_max : ℕ
u64_max = 18_446_744_073_709_551_615

abbrev pub u128_max : ℕ
u128_max = 340_282_366_920_938_463_463_374_607_431_768_211_455

abbrev pub from_millis : ℕ → Duration
from_millis n = n * 1_000_000

abbrev pub from_secs : ℕ → Duration
from_secs n = n * 1_000_000_000

abbrev pub as_millis : Duration → ℕ
as_millis d = d / 1_000_000

abbrev pub is_zero : Duration → Bool
is_zero d = d == 0

-- The value of an operation whose mathematical result must not pass a bound.
abbrev pub checked : ℕ → ℕ → Option ℕ
checked bound n = if leb n bound then some n else none

abbrev pub checked_add : Duration → Duration → Option Duration
checked_add a b = checked duration_max (a + b)

abbrev pub checked_mul : Duration → ℕ → Option Duration
checked_mul a k = checked duration_max (a * k)

abbrev pub saturating_mul : Duration → ℕ → Duration
saturating_mul a k = min (a * k) duration_max

-- `Instant::checked_sub`, which fails before the earliest instant, and `Instant::checked_add`.
abbrev pub instant_checked_sub : Instant → Duration → Option Instant
instant_checked_sub t d = if ltb t d then none else some (t - d)

abbrev pub instant_checked_add : Instant → Duration → Option Instant
instant_checked_add t d = checked duration_max (t + d)
