-- ===== src/Runtime/WorkerPool.antt =====
-- The registry of the workers (cqrs-runtime/src/runtime/worker_pool.rs): the tasks of the `JoinSet` that have
-- not been joined, and the index of each. Which of them `join_next_with_id` gives, and how that one ended,
-- are inputs; IDs of Tokio tasks are numbers.
pub mod Registry
use account_management_servi.Base.{
  ℕ, zero, suc, ◌≡◌, ◌≢◌, Bool, true, false, not, Option, none, some, List, [], ◌∷◌, ◌==◌,
  if◌then◌else◌, In, Outcome, returns, panics,
}

pub record WorkerExit : Type 0 where
  pub index : ℕ
  pub tokio_task_id : ℕ
  pub panicked : Bool
  pub cancelled : Bool

-- How a task ended: by itself, or with a `JoinError`.
pub data Ending : Type 0 where
  finishes panicking aborting : Ending

pub record WorkerPool : Type 0 where
  pub workers : List ℕ
  pub worker_indices : List (ℕ × ℕ)

abbrev pub is_panic : Ending → Bool
is_panic panicking = true
is_panic _ = false

abbrev pub is_cancelled : Ending → Bool
is_cancelled aborting = true
is_cancelled _ = false

-- `JoinSet` without the task that it gives.
unfoldable pub joined : ℕ → List ℕ → List ℕ
joined id [] = []
joined id (x ∷ xs) = let rest = joined id xs in if x == id then xs else x ∷ rest

-- `HashMap::remove`: the value, and the map without it.
unfoldable pub remove : ℕ → List (ℕ × ℕ) → Option (ℕ × List (ℕ × ℕ))
remove id [] = none
remove id ((key, index) ∷ entries) =
    let rest = remove id entries in
    if key == id
    then some (index, entries)
    else elim rest [ none ↦ none | some found ↦ some (found.0, (key, index) ∷ found.1) ]

-- `HashMap::insert` of a key that may be there.
unfoldable pub insert : ℕ → ℕ → List (ℕ × ℕ) → List (ℕ × ℕ)
unfolding remove
insert id index entries = elim (remove id entries) [
  | none ↦ (id, index) ∷ entries
  | some found ↦ (id, index) ∷ found.1
]

-- `WorkerPool::new`.
abbrev pub new : WorkerPool
new = record { workers = []; worker_indices = [] }

-- The worker's task gets the ID `id`.
unfoldable pub spawn : ℕ → ℕ → WorkerPool → WorkerPool
unfolding insert
spawn id index pool = record {
  workers = id ∷ pool.workers;
  worker_indices = insert id index pool.worker_indices;
}

-- The exit of the task `id`, and the pool after it; `expect` panics on a task without an index.
unfoldable pub next_exit : ℕ → Ending → WorkerPool → Outcome ⊥ (WorkerExit × WorkerPool)
unfolding remove joined
next_exit id ending pool = elim (remove id pool.worker_indices) [
  | none ↦ panics
  | some found ↦ returns (
    record {
      index = found.0;
      tokio_task_id = id;
      panicked = is_panic ending;
      cancelled = is_cancelled ending;
    },
    record { workers = joined id pool.workers; worker_indices = found.1 },
  )
]

-- The workers that the start spawns under the indices below `n`.
unfoldable pub spawn_all : (ℕ → ℕ) → ℕ → WorkerPool
unfolding spawn
spawn_all id zero = new
spawn_all id (suc n) = spawn (id n) n (spawn_all id n)
