-- ===== src/Runtime/Poller.antt =====
-- The producer's rotating claim over its formats (cqrs-runtime/src/runtime/poller.rs), for any queue that
-- keeps its contract. A `usize` has 64 bits.
pub mod Batches
use account_management_servi.Base.{
  ℕ, zero, suc, ◌+◌, ◌-◌, ◌%◌, ◌^◌, ◌≤◌, ◌<◌, ◌≡◌, ◌≢◌, refl, Bool, true, false, Option, none, some,
  List, [], ◌∷◌, ◌++◌, length, length-append, get_elem?, ◌==◌, if◌then◌else◌, Result, ok, err,
  Outcome, returns, rejects, panics, arith, Option-cases, Bool-cases, inl, inr, Result-cases, ◌⊎◌,
  ap, ◌∙◌, sym,
}
use account_management_servi.Task.Data.{TaskFormat}
use account_management_servi.Task.Queue.{TaskProcessingError, timed_out}
use mathlib.Core.List.{append_assoc, append-nil}

-- What the poller uses of a queue: a claim of at most so many tasks of a format; no answer means that
-- the deadline came first.
abbrev pub QueueClaim : Type 0 → Type 0 → Type 0
QueueClaim T W = TaskFormat → ℕ → W → Option (Result TaskProcessingError (List T)) × W

-- The queue's contract: no answer holds more tasks than were asked for.
abbrev pub HonoursLimit : {T W : Type 0} → QueueClaim T W → Type 0
HonoursLimit {T} {W} queue =
    (f : TaskFormat) (limit : ℕ) (w w' : W) (tasks : List T)
    → queue f limit w ≡ (some (ok tasks), w')
    → length tasks ≤ limit

pub record Poller : Type 0 where
  pub formats : List TaskFormat
  pub next_format_start : ℕ

abbrev pub wrapping_add : ℕ → ℕ → ℕ
wrapping_add a b = (a + b) % 2 ^ 64

abbrev pub or_timed_out :
    {T : Type 0}
    → Option (Result TaskProcessingError (List T))
    → Result TaskProcessingError (List T)
or_timed_out none = err timed_out
or_timed_out (some r) = r

-- What to answer when a claim fails: the tasks that are claimed already are never given up.
abbrev pub or_claimed :
    {T : Type 0} → List T → TaskProcessingError → Outcome TaskProcessingError (List T)
or_claimed [] e = rejects e
or_claimed (t ∷ ts) e = returns (t ∷ ts)

module _ {T W : Type 0} (queue : QueueClaim T W) where
  -- The rounds that are left, from an offset, with what is claimed so far.
  unfoldable pub claim_from :
      List TaskFormat → ℕ → ℕ → ℕ → ℕ → List T → W → Outcome TaskProcessingError (List T) × W
  claim_from formats start limit zero offset claimed w = (returns claimed, w)
  claim_from formats start limit (suc left) offset claimed w = elim (length claimed == limit) [
    | true ↦ (returns claimed, w)
    | false ↦ elim (get_elem? formats (wrapping_add start offset % length formats)) [
      | none ↦ (panics, w)
      | some format ↦
          let (answer, w') = queue format (limit - length claimed) w in
          elim (or_timed_out answer) [
            | err e ↦ (or_claimed claimed e, w')
            | ok tasks ↦ claim_from formats start limit left (suc offset) (claimed ++ tasks) w'
          ]
    ]
  ]

  unfoldable pub claim : Poller → ℕ → W → Outcome TaskProcessingError (List T) × Poller × W
  unfolding claim_from
  claim p limit w =
      let (out, w') = claim_from p.formats p.next_format_start limit (length p.formats) 0 [] w in
      (out, record p { next_format_start = wrapping_add p.next_format_start 1 }, w')
