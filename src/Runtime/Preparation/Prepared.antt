-- ===== src/Runtime/Preparation/Prepared.antt =====
-- What preparation hands to the workers (cqrs-runtime/src/runtime/preparation.rs).
use account_management_servi.Base.{
  ℕ, zero, suc, ◌+◌, ◌-◌, ◌≤◌, ◌≡◌, refl, Bool-cases, true, inl, inr, List, [], ◌∷◌, Result, ok,
  err, length, All, arith,
}
use account_management_servi.Task.Data.{TaskFormat, format_eq}
use account_management_servi.Task.Data.Checked.{format_eq_iff}
use account_management_servi.Task.Dispatcher.{TaskDispatcher, TaskDispatcherError}
use account_management_servi.Command.Retry.Loop.{counted}
use account_management_servi.Runtime.Preparation.{
  WorkerSetupError, worker_index, formats_eq, built, prepend, collected, build_checked_dispatcher,
  build_from, after_first, prepare,
}

formats_eq_lem : (xs ys : List TaskFormat) → formats_eq xs ys ≡ true → xs ≡ ys
unfolding formats_eq
formats_eq_lem [] [] h = refl
formats_eq_lem [] (y ∷ ys) h = absurd (ground arith)
formats_eq_lem (x ∷ xs) [] h = absurd (ground arith)
formats_eq_lem (x ∷ xs) (y ∷ ys) h =
    let (p, q) : (format_eq x y ≡ true) × (formats_eq xs ys ≡ true) = ground arith in
    ground (arith, (format_eq_iff x y).0 p, formats_eq_lem xs ys q)

-- The workers from `index` on were built from `calls` calls of the factory: all `left` of them with the
-- formats, or up to the first that failed.
IsBuilt :
    {V W S : Type 0}
    → List TaskFormat
    → ℕ
    → ℕ
    → Result WorkerSetupError (List (TaskDispatcher V W)) × (ℕ × S)
    → Type 0
IsBuilt {V} {W} formats index left (ok ds, (calls, s)) =
    (length ds ≡ left)
    × (calls ≡ index + left)
    × All (λ (d : TaskDispatcher V W). d.formats ≡ formats) ds
IsBuilt formats index left (err e, (calls, s)) =
    (calls ≡ suc (worker_index e)) × (index ≤ worker_index e) × (calls ≤ index + left)

-- The same of the whole pool, whose formats are the first dispatcher's.
pub IsPrepared :
    {V W S : Type 0} → ℕ → Result WorkerSetupError (List (TaskDispatcher V W)) × (ℕ × S) → Type 0
IsPrepared {V} {W} concurrency (ok ds, (calls, s)) =
    (length ds ≡ concurrency)
    × (calls ≡ concurrency)
    × ((formats : List TaskFormat) × All (λ (d : TaskDispatcher V W). d.formats ≡ formats) ds)
IsPrepared concurrency (err e, (calls, s)) = (calls ≡ suc (worker_index e)) × (calls ≤ concurrency)

prepend-IsBuilt :
    {V W S : Type 0} (formats : List TaskFormat) (index left : ℕ) (d : TaskDispatcher V W)
    (x : Result WorkerSetupError (List (TaskDispatcher V W)) × (ℕ × S))
    → d.formats ≡ formats
    → IsBuilt formats (suc index) left x
    → IsBuilt formats index (suc left) (prepend d x)
unfolding IsBuilt
prepend-IsBuilt formats index left d (ok ds, (calls, s)) p (l, c, h) =
    (omega arith, omega arith, (p, h))
prepend-IsBuilt formats index left d (err e, (calls, s)) p (c, l, h) = (c, omega arith, omega arith)

collected-IsBuilt :
    {V W S : Type 0} (formats : List TaskFormat) (index left : ℕ)
    (r : Result TaskDispatcherError (TaskDispatcher V W)) (s : S)
    (rest : ℕ × S → Result WorkerSetupError (List (TaskDispatcher V W)) × (ℕ × S))
    → IsBuilt formats (suc index) left (rest (suc index, s))
    → IsBuilt formats index (suc left) (collected (built formats index (r, (suc index, s))) rest)
unfolding IsBuilt
collected-IsBuilt formats index left (err source) s rest h = (refl, omega arith, omega arith)
collected-IsBuilt formats index left (ok d) s rest h =
    elim (Bool-cases (formats_eq d.formats formats)) [
      | inl same ↦
          rw (same)
            (prepend-IsBuilt formats index left d _ (formats_eq_lem d.formats formats same) h)
      | inr other ↦ rw (other) (refl, omega arith, omega arith)
    ]

-- The first dispatcher in front of the others.
prepend-IsPrepared :
    {V W S : Type 0} (concurrency : ℕ) (d : TaskDispatcher V W)
    (x : Result WorkerSetupError (List (TaskDispatcher V W)) × (ℕ × S))
    → 1 ≤ concurrency
    → IsBuilt d.formats 1 (concurrency - 1) x
    → IsPrepared concurrency (prepend d x)
unfolding IsBuilt IsPrepared
prepend-IsPrepared concurrency d (ok ds, (calls, s)) k (l, c, h) =
    (omega arith, omega arith, (d.formats, (refl, h)))
prepend-IsPrepared concurrency d (err e, (calls, s)) k (c, l, h) = (c, omega arith)

module _ {V W S : Type 0} (factory : S → Result TaskDispatcherError (TaskDispatcher V W) × S) where
  build_from-IsBuilt :
      (left index : ℕ) (formats : List TaskFormat) (s : S)
      → IsBuilt formats index left (build_from (counted factory) left index formats (index, s))
  unfolding build_from build_checked_dispatcher IsBuilt
  build_from-IsBuilt zero index formats s = (refl, omega arith, tt)
  build_from-IsBuilt (suc left) index formats s =
      collected-IsBuilt formats index left (factory s).0 (factory s).1
        (build_from (counted factory) left (suc index) formats)
        (build_from-IsBuilt left (suc index) formats (factory s).1)

  after_first-IsPrepared :
      (concurrency : ℕ) (r : Result TaskDispatcherError (TaskDispatcher V W)) (s : S)
      → 1 ≤ concurrency
      → IsPrepared concurrency (after_first (counted factory) concurrency (r, (1, s)))
  unfolding IsPrepared
  after_first-IsPrepared concurrency (ok first) s k =
      prepend-IsPrepared concurrency first _ k
        (build_from-IsBuilt (concurrency - 1) 1 first.formats s)
  after_first-IsPrepared concurrency (err source) s k = (refl, k)

  -- For a positive concurrency, preparation either calls the factory once for each worker and returns
  -- that many dispatchers, all of the same formats in the same order, or it returns an error that names
  -- the worker of the factory's last call, and calls the factory at most once for each worker.
  pub prepare-IsPrepared :
      (concurrency : ℕ) (s : S)
      → 1 ≤ concurrency
      → IsPrepared concurrency (prepare (counted factory) concurrency (0, s))
  unfolding prepare
  prepare-IsPrepared concurrency s k =
      after_first-IsPrepared concurrency (factory s).0 (factory s).1 k
