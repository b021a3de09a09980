-- ===== src/Host/Failures.antt =====
-- The failures that the host meets, and what it makes of them (cqrs-runtime/src/host/lifecycle.rs).
use account_management_servi.Base.{◌≡◌, refl, some, List, [], ◌∷◌, ◌++◌, arith, Result, ok, err}
use account_management_servi.Host.{
  HostError, shutdown_signal, inbound, inbound_stopped, task_runtime_join, task_runtime,
  task_runtime_stopped, IoResult, TaskRuntimeExit, StopReason, signalled, requested, inbound_ended,
  task_runtime_ended, Poll, Ends, Action, spawns_tasks, cancels_token, awaits_inbound, awaits_tasks,
  logs, observed, finish, run,
}

module _ {Io Runtime Join : Type 0} where
  abbrev inbound_failures : IoResult Io Runtime Join → List (HostError Io Runtime Join)
  inbound_failures (ok u) = []
  inbound_failures (err e) = inbound e ∷ []

  abbrev runtime_failures : TaskRuntimeExit Io Runtime Join → List (HostError Io Runtime Join)
  runtime_failures (ok (ok u)) = []
  runtime_failures (ok (err e)) = task_runtime e ∷ []
  runtime_failures (err e) = task_runtime_join e ∷ []

  -- An end that nobody asked for is a failure, however the component ended.
  abbrev unexpected_inbound : IoResult Io Runtime Join → HostError Io Runtime Join
  unexpected_inbound (ok u) = inbound_stopped
  unexpected_inbound (err e) = inbound e

  abbrev unexpected_runtime : TaskRuntimeExit Io Runtime Join → HostError Io Runtime Join
  unexpected_runtime (ok (ok u)) = task_runtime_stopped
  unexpected_runtime (ok (err e)) = task_runtime e
  unexpected_runtime (err e) = task_runtime_join e

  abbrev signal_failures : IoResult Io Runtime Join → List (HostError Io Runtime Join)
  signal_failures (ok u) = []
  signal_failures (err e) = shutdown_signal e ∷ []

  -- All failures, the most important first.
  abbrev pub failures :
      StopReason Io Runtime Join → Ends Io Runtime Join → List (HostError Io Runtime Join)
  failures (signalled result) ends =
      signal_failures result
      ++ (runtime_failures ends.task_runtime ++ inbound_failures ends.inbound)
  failures requested ends = runtime_failures ends.task_runtime ++ inbound_failures ends.inbound
  failures (inbound_ended result) ends =
      unexpected_inbound result ∷ runtime_failures ends.task_runtime
  failures (task_runtime_ended result) ends =
      unexpected_runtime result ∷ inbound_failures ends.inbound

  -- The components that run on when the host stops waiting.
  abbrev pub awaited : StopReason Io Runtime Join → List (Action Io Runtime Join)
  awaited (signalled result) = awaits_inbound ∷ awaits_tasks ∷ []
  awaited requested = awaits_inbound ∷ awaits_tasks ∷ []
  awaited (inbound_ended result) = awaits_tasks ∷ []
  awaited (task_runtime_ended result) = awaits_inbound ∷ []

  abbrev pub primary :
      List (HostError Io Runtime Join) → Result (HostError Io Runtime Join) (Unit {0})
  primary [] = ok tt
  primary (e ∷ es) = err e

  -- The failures but the first, the least important first.
  abbrev pub secondary : List (HostError Io Runtime Join) → List (Action Io Runtime Join)
  secondary [] = []
  secondary (e ∷ []) = []
  secondary (e ∷ f ∷ []) = logs f ∷ []
  secondary (e ∷ f ∷ g ∷ es) = secondary (e ∷ g ∷ es) ++ (logs f ∷ [])

  abbrev Finished : StopReason Io Runtime Join → Ends Io Runtime Join → Type 0
  Finished reason ends =
      finish reason ends
      ≡ (primary (failures reason ends), awaited reason ++ secondary (failures reason ends))

  finish_at :
      (reason : StopReason Io Runtime Join) (i : IoResult Io Runtime Join)
      (t : TaskRuntimeExit Io Runtime Join)
      → Finished reason (record { inbound = i; task_runtime = t })
  unfolding finish
  finish_at reason i t = ground arith

  -- Once the host has seen a reason to stop, it cancels the token, waits for every component that has
  -- not ended yet, and accounts for every failure: the most important one is its result, success if
  -- there is none, and each other one is logged, exactly once. A failure to observe signals comes
  -- before one of the task runtime, and that before one of the inbound adapter; but a component that ends
  -- before anybody asked it to is the primary failure, also if it ended without an error.
  pub run-reports :
      (polls : List (Poll Io Runtime Join)) (ends : Ends Io Runtime Join)
      (reason : StopReason Io Runtime Join)
      → observed polls ≡ some reason
      → run polls ends
        ≡ some (
          primary (failures reason ends),
          spawns_tasks ∷ cancels_token ∷ (awaited reason ++ secondary (failures reason ends)),
        )
  unfolding run
  run-reports polls ends reason h =
      rw (h, finish_at reason ends.inbound ends.task_runtime, run) refl
