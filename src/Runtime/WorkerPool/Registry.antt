-- ===== src/Runtime/WorkerPool/Registry.antt =====
-- The registry through starts, exits and restarts (cqrs-runtime/src/runtime/worker_pool.rs, supervisor.rs).
use account_management_servi.Base.{
  ℕ, zero, suc, ◌+◌, ◌<◌, ◌≡◌, refl, inl, inr, false, Bool-cases, none, some, List, [], ◌∷◌, map,
  ◌==◌, ltb, if◌then◌else◌, In, returns, sym, ap, ◌∙◌, arith,
}
use mathlib.Core.Path.{subst}
use account_management_servi.Runtime.WorkerPool.{
  WorkerExit, WorkerPool, Ending, joined, remove, insert, spawn, next_exit, spawn_all, is_panic,
  is_cancelled,
}

abbrev keys : List (ℕ × ℕ) → List ℕ
keys entries = map (λ entry. entry.0) entries

-- How many workers have the index `j`.
abbrev pub workers_at : ℕ → List (ℕ × ℕ) → ℕ
workers_at j [] = 0
workers_at j ((key, index) ∷ entries) = (if index == j then 1 else 0) + workers_at j entries

abbrev IsRemoved : ℕ → List (ℕ × ℕ) → Type 0
IsRemoved id entries =
    (i : ℕ) × (rest : List (ℕ × ℕ)) × (remove id entries ≡ some (i, rest))
    × (keys rest ≡ joined id (keys entries))
    × ((j : ℕ) → workers_at j entries ≡ (if i == j then 1 else 0) + workers_at j rest)

other_member : (id key : ℕ) (ids : List ℕ) → (key == id) ≡ false → In id (key ∷ ids) → In id ids
other_member id key ids other (inl e) = absurd (ground (arith, other, e))
other_member id key ids other (inr m) = m

remove-IsRemoved : (id : ℕ) (entries : List (ℕ × ℕ)) → In id (keys entries) → IsRemoved id entries
unfolding remove joined
remove-IsRemoved id [] m = absurd m
remove-IsRemoved id ((key, index) ∷ entries) m = elim (Bool-cases (key == id)) [
  | inl same ↦ rw (same, remove, joined) (index, entries, refl, refl, λ j. refl)
  | inr other ↦
      let (i, rest, r, k, c) =
        remove-IsRemoved id entries (other_member id key (keys entries) other m) in
      rw (other, r, remove, joined)
        (i, (key, index) ∷ rest, refl, ap (λ ks. key ∷ ks) k, λ j. omega (arith, c j))
]

remove-eq_none :
    (id : ℕ) (entries : List (ℕ × ℕ)) → (In id (keys entries) → ⊥) → remove id entries ≡ none
unfolding remove
remove-eq_none id [] n = refl
remove-eq_none id ((key, index) ∷ entries) n =
    let rest = remove-eq_none id entries (λ m. n (inr m)) in
    elim (Bool-cases (key == id)) [
      | inl same ↦ absurd (n (inl (ground (arith, same))))
      | inr other ↦ rw (other, rest, remove) refl
    ]

-- Every running worker has an index, and no index is lost or taken twice.
pub record IsRegistered (count : ℕ) (pool : WorkerPool) : Type 0 where
  pub known : keys pool.worker_indices ≡ pool.workers
  pub indexed : (j : ℕ) → workers_at j pool.worker_indices ≡ (if ltb j count then 1 else 0)

insert_fresh :
    (id index : ℕ) (entries : List (ℕ × ℕ))
    → (In id (keys entries) → ⊥)
    → insert id index entries ≡ (id, index) ∷ entries
unfolding insert
insert_fresh id index entries n = rw (remove-eq_none id entries n, insert) refl

spawn-IsRegistered :
    (id count : ℕ) (pool : WorkerPool)
    → (In id pool.workers → ⊥)
    → IsRegistered count pool
    → IsRegistered (suc count) (spawn id count pool)
unfolding spawn
spawn-IsRegistered id count pool fresh h =
    let n : In id (keys pool.worker_indices) → ⊥ = λ m. fresh (subst (In id) h.known m) in
    let e = insert_fresh id count pool.worker_indices n in
    record {
      known = rw e (ap (λ ids. id ∷ ids) h.known);
      indexed = λ j. rw e (ground (arith, h.indexed j));
    }

-- The IDs are new when they are given.
abbrev pub AreFresh : (ℕ → ℕ) → ℕ → Type 0
AreFresh id count = (n : ℕ) → n < count → In (id n) (spawn_all id n).workers → ⊥

spawn_all-IsRegistered :
    (id : ℕ → ℕ) (count : ℕ) → AreFresh id count → IsRegistered count (spawn_all id count)
unfolding spawn_all
spawn_all-IsRegistered id zero fresh = record { known = refl; indexed = λ j. ground arith }
spawn_all-IsRegistered id (suc n) fresh =
    spawn-IsRegistered (id n) n (spawn_all id n) (fresh n (omega arith))
      (spawn_all-IsRegistered id n (λ m h. fresh m (omega (arith, h))))

-- What an exit and the restart under its index leave.
exit_restart :
    (id fresh_id count : ℕ) (ending : Ending) (pool : WorkerPool)
    → IsRegistered count pool
    → In id pool.workers
    → (exit : WorkerExit) × (after : WorkerPool) × (next_exit id ending pool
        ≡ returns (exit, after))
      × (exit.index < count)
      × ((In fresh_id after.workers → ⊥) → IsRegistered count (spawn fresh_id exit.index after))
unfolding next_exit spawn
exit_restart id fresh_id count ending pool h m =
    let (i, rest, r, k, c) =
      remove-IsRemoved id pool.worker_indices (subst (In id) (sym h.known) m) in
    let exit : WorkerExit = record {
      index = i;
      tokio_task_id = id;
      panicked = is_panic ending;
      cancelled = is_cancelled ending;
    } in
    let after : WorkerPool = record { workers = joined id pool.workers; worker_indices = rest } in
    let known : keys rest ≡ joined id pool.workers = k ∙ ap (joined id) h.known in
    (
      exit,
      after,
      rw (r, next_exit) refl,
      ground (arith, c i, h.indexed i),
      λ n.
          let e = insert_fresh fresh_id i rest (λ q. n (subst (In fresh_id) known q)) in
          record {
            known = rw e (ap (λ ids. fresh_id ∷ ids) known);
            indexed = λ j. rw e (sym (c j) ∙ h.indexed j);
          },
    )

-- The pools of a runtime: its start under the indices below `count`, and each restart of a worker that ended
-- under the index that its exit gives.
pub data Runs (count : ℕ) : WorkerPool → Type 0 where
  starts : (id : ℕ → ℕ) → AreFresh id count → Runs count (spawn_all id count)
  restarts :
      {pool after : WorkerPool} (id fresh_id : ℕ) (ending : Ending) (exit : WorkerExit)
      → Runs count pool
      → In id pool.workers
      → next_exit id ending pool ≡ returns (exit, after)
      → (In fresh_id after.workers → ⊥)
      → Runs count (spawn fresh_id exit.index after)

runs-IsRegistered : (count : ℕ) (pool : WorkerPool) → Runs count pool → IsRegistered count pool
runs-IsRegistered count _ (starts id fresh) = spawn_all-IsRegistered id count fresh
runs-IsRegistered count _
      (restarts {pool = pool} {after = after} id fresh_id ending exit r m e fresh) =
    let (exit', after', e', bounded, kept) =
      exit_restart id fresh_id count ending pool (runs-IsRegistered count pool r) m in
    let q : (exit', after') ≡ (exit, after) = ground (arith, e, e') in
    subst
      (λ (x : WorkerExit × WorkerPool).
        (In fresh_id x.1.workers → ⊥) → IsRegistered count (spawn fresh_id x.0.index x.1))
      q kept fresh

-- In a pool of `count` workers, through any exits and restarts with fresh task IDs, the exit of every running
-- worker finds its index: `expect` never panics, and the index is one of the workers'. Each index below
-- `count` belongs to exactly one running worker, whose restart takes it over.
pub exits_are_known :
    (count : ℕ) (pool : WorkerPool)
    → Runs count pool
    → ((id : ℕ) (ending : Ending)
        → In id pool.workers
        → (exit : WorkerExit) × (after : WorkerPool) × (next_exit id ending pool
            ≡ returns (exit, after))
          × (exit.index < count))
      × ((j : ℕ) → workers_at j pool.worker_indices ≡ (if ltb j count then 1 else 0))
exits_are_known count pool r =
    let h = runs-IsRegistered count pool r in
    (
      λ id ending m.
          let (exit, after, e, bounded, kept) = exit_restart id 0 count ending pool h m in
          (exit, after, e, bounded),
      h.indexed,
    )
