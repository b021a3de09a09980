-- ===== src/Task/Dispatcher.antt =====
-- Routing a delivery to the one adapter of its format (cqrs-runtime/src/task/handling/dispatcher.rs,
-- json_adapter.rs, handler.rs). Adapters and handlers are the application's: they act on a world `W`.
pub mod Routing
use account_management_servi.Base.{
  ℕ, suc, ◌+◌, ◌/◌, ◌%◌, ◌≡◌, Bool, true, false, not, ◌&&◌, ◌||◌, Option, none, some, List, [], ◌∷◌,
  ◌++◌, map, Text, text, is_empty, leb, ◌==◌, if◌then◌else◌, Result, ok, err, ◌>>=◌, Outcome,
  returns, rejects, panics, get_elem?, ℤ, pos, negsuc, is_some,
}
use account_management_servi.Time.{Duration}
use account_management_servi.Task.Data.{
  TaskFormat, format_eq, TaskAttempt, TaskFormatError, new_format, TaskPayload,
}

pub data TaskHandlerError : Type 0 where
  retry : (reason : Text) (retry_after : Option Duration) → TaskHandlerError
  permanent : (reason : Text) → TaskHandlerError

pub record TaskAdapter (V W : Type 0) : Type 0 where
  pub formats : List TaskFormat
  pub invoke : TaskAttempt V → W → Result TaskHandlerError (Unit {0}) × W

pub data TaskDispatcherError : Type 0 where
  empty : TaskDispatcherError
  duplicate_format : TaskFormat → TaskDispatcherError
  invalid_format : TaskFormatError → TaskDispatcherError

-- A `HashMap<TaskFormat, usize>`.
abbrev pub Routes : Type 0
Routes = List (TaskFormat × ℕ)

unfoldable pub get : Routes → TaskFormat → Option ℕ
get [] f = none
get ((g, i) ∷ rs) f = if format_eq g f then some i else get rs f

pub record TaskDispatcher (V W : Type 0) : Type 0 where
  pub adapters : List (TaskAdapter V W)
  pub formats : List TaskFormat
  pub routes : Routes

-- `enumerate` and `flat_map`, from an index.
abbrev pub with_index : ℕ → List TaskFormat → List (ℕ × TaskFormat)
with_index i fs = map (λ f. (i, f)) fs

module _ {V W : Type 0} where
  unfoldable pub enumerated : ℕ → List (TaskAdapter V W) → List (ℕ × TaskFormat)
  enumerated i [] = []
  enumerated i (a ∷ xs) = with_index i a.formats ++ enumerated (suc i) xs

-- The fold: a format that has a route is refused.
unfoldable pub register :
    List (ℕ × TaskFormat)
    → Routes
    → List TaskFormat
    → Result TaskDispatcherError (Routes × List TaskFormat)
unfolding get format_eq
register [] routes formats = ok (routes, formats)
register ((i, f) ∷ rest) routes formats =
    let registered = register rest ((f, i) ∷ routes) (formats ++ f ∷ []) in
    if is_some (get routes f) then err (duplicate_format f) else registered

abbrev pub outcome :
    {W : Type 0} → Result TaskHandlerError (Unit {0}) × W → Outcome TaskHandlerError (Unit {0}) × W
outcome (ok u, w) = (returns u, w)
outcome (err e, w) = (rejects e, w)

module _ {V W : Type 0} where
  abbrev pub assembled :
      List (TaskAdapter V W)
      → Result TaskDispatcherError (Routes × List TaskFormat)
      → Result TaskDispatcherError (TaskDispatcher V W)
  assembled adapters (err e) = err e
  assembled adapters (ok (routes, [])) = err empty
  assembled adapters (ok (routes, f ∷ fs)) =
      ok (record { adapters = adapters; formats = f ∷ fs; routes = routes })

  unfoldable pub try_new : List (TaskAdapter V W) → Result TaskDispatcherError (TaskDispatcher V W)
  unfolding register enumerated
  try_new [] = err empty
  try_new (a ∷ xs) = assembled (a ∷ xs) (register (enumerated 0 (a ∷ xs)) [] [])

  -- `self.adapters[*index]`, which panics out of range.
  abbrev pub invoke_at :
      Option (TaskAdapter V W) → TaskAttempt V → W → Outcome TaskHandlerError (Unit {0}) × W
  invoke_at none delivery w = (panics, w)
  invoke_at (some a) delivery w = outcome (a.invoke delivery w)

  unfoldable pub dispatch :
      TaskDispatcher V W → TaskAttempt V → W → Outcome TaskHandlerError (Unit {0}) × W
  unfolding get
  dispatch d delivery w = elim (get d.routes delivery.format) [
    | some index ↦ invoke_at (get_elem? d.adapters index) delivery w
    | none ↦ (rejects (permanent (text "unsupported task format")), w)
  ]

-- ASCII letters, digits and the underscore.
abbrev pub is_safe_char : ℕ → Bool
is_safe_char c =
    (leb 48 c && leb c 57) || (leb 65 c && leb c 90) || (leb 97 c && leb c 122) || c == 95

abbrev pub all_safe : Text → Bool
all_safe [] = true
all_safe (c ∷ cs) = is_safe_char c && all_safe cs

unfoldable pub safe_type : Text → Text
safe_type value = if not (is_empty value) && all_safe value then value else text "unknown"

-- `decimal` prints an integer.
unfoldable pub safe_format : (ℤ → Text) → TaskFormat → Text
unfolding safe_type
safe_format decimal f = safe_type f.task_type ++ text " v" ++ decimal f.task_version

-- A handler of one payload type: its serde decoding and its operation.
pub record TaskHandler (V W P : Type 0) : Type 0 where
  pub deserialize : V → Option P
  pub handle : P → TaskAttempt V → W → Result TaskHandlerError (Unit {0}) × W

module _ {V W P : Type 0} (decimal : ℤ → Text) where
  unfoldable pub invoke_json :
      TaskHandler V W P → TaskFormat → TaskAttempt V → W → Result TaskHandlerError (Unit {0}) × W
  unfolding safe_format format_eq
  invoke_json h f delivery w =
      if not (format_eq delivery.format f)
      then (err (permanent (text "unsupported task format for " ++ safe_format decimal f)), w)
      else elim (h.deserialize delivery.payload) [
        | none ↦
            (err (permanent (text "invalid " ++ safe_format decimal f ++ text " task payload")), w)
        | some payload ↦ h.handle payload delivery w
      ]

  unfoldable pub task_adapter :
      TaskPayload V P → TaskHandler V W P → Result TaskFormatError (TaskAdapter V W)
  unfolding new_format
  task_adapter p h = do
    f ← new_format p.task_type p.task_version
    ok (record { formats = f ∷ []; invoke = invoke_json h f })
