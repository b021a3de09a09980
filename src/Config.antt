-- ===== src/Config.antt =====
-- Settings from the environment: integers (cqrs-runtime/src/env.rs). The lookup is one function of the
-- names, as that of a process whose environment does not change while it is read.
pub mod Numerals
pub mod Storage
pub mod WorkerPool
pub mod TaskRuntime
pub mod TaskQueue
pub mod Pool
pub mod Loaded
pub mod Logging
pub mod Service
pub mod Environment
use account_management_servi.Base.{
  ℕ, ◌+◌, ◌-◌, ◌*◌, ◌&&◌, Option, none, some, [], ◌∷◌, Text, is_empty, leb, ◌==◌, if◌then◌else◌,
  Result, ok, err,
}
use account_management_servi.Time.{u64_max}

-- The kinds of `ParseIntError` that `u64` has.
pub data ParseIntError : Type 0 where
  empty invalid_digit pos_overflow : ParseIntError

abbrev pub digit : ℕ → Option ℕ
digit c = if leb 48 c && leb c 57 then some (c - 48) else none

-- The loop of `u64::from_str`, from the value read so far.
unfoldable pub digits : ℕ → Text → Result ParseIntError ℕ
digits n [] = ok n
digits n (c ∷ rest) = elim (digit c) [
  | none ↦ err invalid_digit
  | some d ↦
      let next = digits (n * 10 + d) rest in
      if leb (n * 10 + d) u64_max then next else err pos_overflow
]

-- `value.parse::<u64>()` of the standard library: a sign `+` may stand before the digits.
unfoldable pub parse_u64 : Text → Result ParseIntError ℕ
unfolding digits
parse_u64 s = elim s [
  | [] ↦ err empty
  | c ∷ rest ↦
      if c == 43
      then (if is_empty rest then err invalid_digit else digits 0 rest)
      else digits 0 (c ∷ rest)
]

abbrev pub Lookup : Type 0
Lookup = Text → Option Text

unfoldable pub read_u64 : Lookup → Text → ℕ → Result ParseIntError ℕ
unfolding parse_u64
read_u64 lookup name default = elim (lookup name) [
  | none ↦ ok default
  | some value ↦ parse_u64 value
]
