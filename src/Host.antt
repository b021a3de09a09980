-- ===== src/Host.antt =====
-- The host of the inbound adapter and the task runtime (cqrs-runtime/src/host). The awaited futures are
-- inputs: what each poll of the first `select!` finds ready, and how each component ends. The result of
-- `run` comes with what it did, in order.
pub mod Failures
use account_management_servi.Base.{
  ◌⊎◌, Bool, true, false, Option, none, some, List, [], ◌∷◌, ◌++◌, if◌then◌else◌, Result, ok, err,
  map_err,
}

-- The errors of I/O, of the task runtime and of joining its task, as their sources.
module _ (Io Runtime Join : Type 0) where
  pub data HostError : Type 0 where
    shutdown_signal : Io → HostError
    inbound : Io → HostError
    inbound_stopped : HostError
    task_runtime_join : Join → HostError
    task_runtime : Runtime → HostError
    task_runtime_stopped : HostError

  abbrev pub IoResult : Type 0
  IoResult = Result Io (Unit {0})

  abbrev pub TaskRuntimeExit : Type 0
  TaskRuntimeExit = Result Join (Result Runtime (Unit {0}))

  pub data StopReason : Type 0 where
    signalled : IoResult → StopReason
    requested : StopReason
    inbound_ended : IoResult → StopReason
    task_runtime_ended : TaskRuntimeExit → StopReason

  -- What one poll of the `select!` finds ready.
  pub record Poll : Type 0 where
    pub signal : Option IoResult
    pub cancelled : Bool
    pub inbound : Option IoResult
    pub task_runtime : Option TaskRuntimeExit

  -- How each component ends, once it does.
  pub record Ends : Type 0 where
    pub inbound : IoResult
    pub task_runtime : TaskRuntimeExit

  pub data Action : Type 0 where
    spawns_tasks cancels_token awaits_inbound awaits_tasks : Action
    logs : HostError → Action

  abbrev pub Logged : Type 0
  Logged = Result HostError (Unit {0}) × List Action

module _ {Io Runtime Join : Type 0} where
  -- `biased` takes the first branch that is ready.
  unfoldable pub select : Poll Io Runtime Join → Option (StopReason Io Runtime Join)
  select p = elim p.signal [
    | some result ↦ some (signalled result)
    | none ↦ if p.cancelled then some requested else elim p.inbound [
      | some result ↦ some (inbound_ended result)
      | none ↦ elim p.task_runtime [ some result ↦ some (task_runtime_ended result) | none ↦ none ]
    ]
  ]

  -- The first poll that finds a branch ready; `none` while there is none.
  unfoldable pub observed : List (Poll Io Runtime Join) → Option (StopReason Io Runtime Join)
  unfolding select
  observed [] = none
  observed (p ∷ ps) =
      let later = observed ps in elim (select p) [ some reason ↦ some reason | none ↦ later ]

  unfoldable pub preserve_primary_failure :
      Logged Io Runtime Join → Logged Io Runtime Join → Logged Io Runtime Join
  preserve_primary_failure (ok u, done) (secondary, more) = (secondary, done ++ more)
  preserve_primary_failure (err e, done) (ok u, more) = (err e, done ++ more)
  preserve_primary_failure (err e, done) (err secondary, more) =
      (err e, done ++ (more ++ (logs secondary ∷ [])))

  unfoldable pub expected_inbound_exit :
      IoResult Io Runtime Join → Result (HostError Io Runtime Join) (Unit {0})
  expected_inbound_exit result = map_err result inbound

  unfoldable pub expected_runtime_exit :
      TaskRuntimeExit Io Runtime Join → Result (HostError Io Runtime Join) (Unit {0})
  expected_runtime_exit (ok (ok u)) = ok tt
  expected_runtime_exit (ok (err error)) = err (task_runtime error)
  expected_runtime_exit (err error) = err (task_runtime_join error)

  unfoldable pub unexpected_runtime_exit :
      TaskRuntimeExit Io Runtime Join → Result (HostError Io Runtime Join) (Unit {0})
  unfolding expected_runtime_exit
  unexpected_runtime_exit (ok (ok u)) = err task_runtime_stopped
  unexpected_runtime_exit (ok (err error)) = expected_runtime_exit (ok (err error))
  unexpected_runtime_exit (err error) = expected_runtime_exit (err error)

  -- The `match` on the reason, after the token was cancelled.
  unfoldable pub finish : StopReason Io Runtime Join → Ends Io Runtime Join → Logged Io Runtime Join
  unfolding preserve_primary_failure expected_inbound_exit expected_runtime_exit
      unexpected_runtime_exit
  finish (signalled signal_result) ends =
      preserve_primary_failure
        (map_err signal_result shutdown_signal, awaits_inbound ∷ awaits_tasks ∷ [])
        (preserve_primary_failure (expected_runtime_exit ends.task_runtime, [])
          (expected_inbound_exit ends.inbound, []))
  finish requested ends =
      preserve_primary_failure
        (expected_runtime_exit ends.task_runtime, awaits_inbound ∷ awaits_tasks ∷ [])
        (expected_inbound_exit ends.inbound, [])
  finish (inbound_ended (ok u)) ends =
      preserve_primary_failure (err inbound_stopped, awaits_tasks ∷ [])
        (expected_runtime_exit ends.task_runtime, [])
  finish (inbound_ended (err error)) ends =
      preserve_primary_failure (err (inbound error), awaits_tasks ∷ [])
        (expected_runtime_exit ends.task_runtime, [])
  finish (task_runtime_ended supervisor_result) ends =
      preserve_primary_failure (unexpected_runtime_exit supervisor_result, awaits_inbound ∷ [])
        (expected_inbound_exit ends.inbound, [])

  -- `none` while no branch of the `select!` is ready.
  unfoldable pub run :
      List (Poll Io Runtime Join) → Ends Io Runtime Join → Option (Logged Io Runtime Join)
  run polls ends = elim (observed polls) [
    | none ↦ none
    | some reason ↦
        let (result, done) = finish reason ends in
        some (result, spawns_tasks ∷ cancels_token ∷ done)
  ]
