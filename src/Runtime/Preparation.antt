-- ===== src/Runtime/Preparation.antt =====
-- Checked construction of the workers' dispatchers, before the runtime starts and when a worker is restarted
-- (cqrs-runtime/src/runtime/preparation.rs, dispatcher_factory.rs, supervisor.rs). The application's factory may keep a state `S`.
pub mod Prepared
use account_management_servi.Base.{
  ℕ, zero, suc, ◌-◌, Bool, true, false, ◌&&◌, if◌then◌else◌, Option, none, some, List, [], ◌∷◌,
  Result, ok, err,
}
use account_management_servi.Task.Data.{TaskFormat, format_eq}
use account_management_servi.Time.{Duration}
use account_management_servi.Runtime.PoolConfig.{
  TaskWorkerPoolConfig, TaskWorkerPoolConfigError, validate_for_storage_timeout,
}
use account_management_servi.Task.Dispatcher.{TaskDispatcher, TaskDispatcherError}

pub data WorkerSetupError : Type 0 where
  build : ℕ → TaskDispatcherError → WorkerSetupError
  formats_mismatch : ℕ → WorkerSetupError

abbrev pub worker_index : WorkerSetupError → ℕ
worker_index (build i source) = i
worker_index (formats_mismatch i) = i

-- `==` on the two slices: their formats agree in order.
unfoldable pub formats_eq : List TaskFormat → List TaskFormat → Bool
formats_eq [] [] = true
formats_eq (x ∷ xs) (y ∷ ys) = format_eq x y && formats_eq xs ys
formats_eq _ _ = false

module _ {V W : Type 0} where
  abbrev pub checked :
      List TaskFormat → ℕ → TaskDispatcher V W → Result WorkerSetupError (TaskDispatcher V W)
  checked formats index dispatcher =
      if formats_eq dispatcher.formats formats then ok dispatcher else err (formats_mismatch index)

  abbrev pub built :
      {S : Type 0}
      → List TaskFormat
      → ℕ
      → Result TaskDispatcherError (TaskDispatcher V W) × S
      → Result WorkerSetupError (TaskDispatcher V W) × S
  built formats index (ok dispatcher, s) = (checked formats index dispatcher, s)
  built formats index (err source, s) = (err (build index source), s)

  -- `collect`, which stops at the first error.
  abbrev pub prepend :
      {S : Type 0}
      → TaskDispatcher V W
      → Result WorkerSetupError (List (TaskDispatcher V W)) × S
      → Result WorkerSetupError (List (TaskDispatcher V W)) × S
  prepend dispatcher (ok rest, s) = (ok (dispatcher ∷ rest), s)
  prepend dispatcher (err e, s) = (err e, s)

  abbrev pub collected :
      {S : Type 0}
      → Result WorkerSetupError (TaskDispatcher V W) × S
      → (S → Result WorkerSetupError (List (TaskDispatcher V W)) × S)
      → Result WorkerSetupError (List (TaskDispatcher V W)) × S
  collected (ok dispatcher, s) rest = prepend dispatcher (rest s)
  collected (err e, s) rest = (err e, s)

-- The errors of the supervisor.
pub data TaskRuntimeError : Type 0 where
  configuration : TaskWorkerPoolConfigError → TaskRuntimeError
  worker_setup : WorkerSetupError → TaskRuntimeError

-- The operator `?` on the collected dispatchers.
abbrev pub prepared :
    {V W S : Type 0}
    → Result WorkerSetupError (List (TaskDispatcher V W)) × S
    → Result TaskRuntimeError (Option (List (TaskDispatcher V W))) × S
prepared (ok dispatchers, s) = (ok (some dispatchers), s)
prepared (err e, s) = (err (worker_setup e), s)

module _ {V W S : Type 0} (factory : S → Result TaskDispatcherError (TaskDispatcher V W) × S) where
  unfoldable pub build_checked_dispatcher :
      List TaskFormat → ℕ → S → Result WorkerSetupError (TaskDispatcher V W) × S
  build_checked_dispatcher formats index s = built formats index (factory s)

  -- The workers from an index on, `left` of them.
  unfoldable pub build_from :
      ℕ → ℕ → List TaskFormat → S → Result WorkerSetupError (List (TaskDispatcher V W)) × S
  build_from zero index formats s = (ok [], s)
  build_from (suc left) index formats s =
      collected (build_checked_dispatcher formats index s) (build_from left (suc index) formats)

  abbrev pub after_first :
      ℕ
      → Result TaskDispatcherError (TaskDispatcher V W) × S
      → Result WorkerSetupError (List (TaskDispatcher V W)) × S
  after_first concurrency (ok first, s) =
      prepend first (build_from (concurrency - 1) 1 first.formats s)
  after_first concurrency (err source, s) = (err (build 0 source), s)

  -- The dispatchers of the runtime that `prepare` returns.
  unfoldable pub prepare : ℕ → S → Result WorkerSetupError (List (TaskDispatcher V W)) × S
  prepare concurrency s = after_first concurrency (factory s)

  -- `run` of the supervisor up to its loop: `none` if it returns at once, for a token that is cancelled
  -- already, else the dispatchers that it goes on with.
  unfoldable pub run :
      TaskWorkerPoolConfig
      → Duration
      → Bool
      → S
      → Result TaskRuntimeError (Option (List (TaskDispatcher V W))) × S
  run config storage_timeout is_cancelled s =
      elim (validate_for_storage_timeout config storage_timeout) [
        | err e ↦ (err (configuration e), s)
        | ok u ↦ if is_cancelled then (ok none, s) else prepared (prepare config.concurrency s)
      ]
