-- ===== src/Tests/Supervisor.antt =====
-- A run of the supervisor with two workers and a channel of one place: a claim, a delivery that starts, a
-- second claim, and a shutdown.
use account_management_servi.Base.{
  ℕ, zero, suc, ◌<◌, In, inr, returns, ltb, if◌then◌else◌, ◌≤◌, ◌≡◌, ◌≢◌, refl, true, false, List,
  [], ◌∷◌, Result, ok, length, arith, inl,
}
use account_management_servi.Task.Queue.{TaskProcessingError}
use account_management_servi.Runtime.WorkerPool.{
  WorkerPool, Ending, insert, WorkerExit, panicking, spawn, spawn_all, next_exit, remove, joined,
}
use account_management_servi.Runtime.WorkerPool.Registry.{
  AreFresh, Runs, starts, restarts, workers_at, exits_are_known,
}
use account_management_servi.Runtime.Supervisor.{
  Pool, Phase, selecting, claiming, asserted, Worker, idle, holding, cleared, running, exited,
  start, Steps, done, also, admits, answers, receives, clears, begins, discards, admit, deliver,
  send_all,
}
use account_management_servi.Runtime.Supervisor.Admission.{pool_within_capacity}
use account_management_servi.Runtime.Supervisor.Shutdown.{IsQuiet, shutdown-IsQuiet}

abbrev AtMost : ℕ → Result TaskProcessingError (List ℕ) → Type 0
AtMost limit answer = (ts : List ℕ) → answer ≡ ok ts → length ts ≤ limit

one : (t : ℕ) → AtMost 1 (ok (t ∷ []))
one t ts e = ground (arith, e)

abbrev pool : Phase → List ℕ → List (Worker ℕ) → List ℕ → Pool ℕ
pool phase buffer workers started = record {
  phase = phase;
  buffer = buffer;
  closed = false;
  workers = workers;
  stopping = false;
  started = started;
}

abbrev idle_pool : List (Worker ℕ)
idle_pool = idle ∷ idle ∷ []

abbrev busy : List (Worker ℕ)
busy = running 5 ∷ idle ∷ []

-- Up to a delivery that runs and one that waits in the channel.
abbrev full : Pool ℕ
full = pool selecting (6 ∷ []) busy (5 ∷ [])

first_claimed : Steps 1 AtMost (start idle_pool) (pool selecting (5 ∷ []) idle_pool [])
unfolding admit deliver send_all
first_claimed =
    also {q = pool (claiming 1) [] idle_pool []} (also done (admits (inl refl) refl refl))
      (answers 1 (ok (5 ∷ [])) refl (one 5) refl)

first_begun : Steps 1 AtMost (start idle_pool) (pool selecting [] busy (5 ∷ []))
first_begun =
    also {q = pool selecting [] (cleared 5 ∷ idle ∷ []) []}
      (also {q = pool selecting [] (holding 5 ∷ idle ∷ []) []}
        (also first_claimed (receives 0 5 [] refl refl refl refl)) (clears 0 5 refl refl refl))
      (begins 0 5 refl refl)

to_full : Steps 1 AtMost (start idle_pool) full
unfolding admit deliver send_all
to_full =
    also {q = pool (claiming 1) [] busy (5 ∷ [])} (also first_begun (admits (inl refl) refl refl))
      (answers 1 (ok (6 ∷ [])) refl (one 6) refl)

pool_within_capacity_example :
    (length full.buffer ≤ 1) × (length full.workers ≡ 2) × (full.phase ≢ asserted)
pool_within_capacity_example =
    pool_within_capacity 1 2 AtMost (λ limit ts a. a ts refl) idle_pool full refl to_full

-- The shutdown comes while one worker holds a delivery, which is discarded, and the other is about to hand
-- one over, which it does.
abbrev stopped : List (Worker ℕ) → List ℕ → Pool ℕ
stopped workers started = record (pool selecting [] workers started) { stopping = true }

discarded :
    Steps 1 AtMost
      (stopped (holding 5 ∷ cleared 6 ∷ []) [])
      (stopped (exited ∷ running 6 ∷ []) (6 ∷ []))
discarded =
    also {q = stopped (exited ∷ cleared 6 ∷ []) []} (also done (discards 0 5 refl refl refl))
      (begins 1 6 refl refl)

shutdown-IsQuiet_example :
    IsQuiet (stopped (holding 5 ∷ cleared 6 ∷ []) []) (stopped (exited ∷ running 6 ∷ []) (6 ∷ []))
shutdown-IsQuiet_example =
    shutdown-IsQuiet 1 AtMost (stopped (holding 5 ∷ cleared 6 ∷ []) [])
      (stopped (exited ∷ running 6 ∷ []) (6 ∷ [])) refl discarded

fresh : AreFresh (λ n. n) 2
unfolding spawn_all
fresh zero b m = absurd m
fresh (suc zero) b m = ground (arith, m)
fresh (suc (suc n)) b m = absurd (omega (arith, b))

-- The first worker panics and is started again as task 9.
restarted : Runs 2 (spawn 9 0 (record { workers = 1 ∷ []; worker_indices = (1, 1) ∷ [] }))
unfolding spawn_all spawn insert remove joined next_exit
restarted =
    restarts {after = record { workers = 1 ∷ []; worker_indices = (1, 1) ∷ [] }} 0 9 panicking
      (record { index = 0; tokio_task_id = 0; panicked = true; cancelled = false })
      (starts (λ n. n) fresh) (inr (inl refl)) refl (λ m. ground (arith, m))

exits_are_known_example :
    let pool = spawn 9 0 (record { workers = 1 ∷ []; worker_indices = (1, 1) ∷ [] }) in
    ((id : ℕ) (ending : Ending)
      → In id pool.workers
      → (exit : WorkerExit) × (after : WorkerPool) × (next_exit id ending pool
          ≡ returns (exit, after))
        × (exit.index < 2))
    × ((j : ℕ) → workers_at j pool.worker_indices ≡ (if ltb j 2 then 1 else 0))
exits_are_known_example = exits_are_known 2 _ restarted
