-- ===== src/System/Executors.antt =====
-- The command executors: each command as one transaction
-- (cqrs-runtime/src/command, account-managements-service/src/infrastructure/cqrs).
use account_management_servi.Base.{
  ℕ, zero, suc, ◌+◌, ◌≤◌, ◌≡◌, refl, inl, inr, true, ◌&&◌, Bool-cases, Option, some, List, ◌++◌,
  Text, sym, ap, ◌∙◌, arith, Result, ok, err, map_err, ltb,
}
use mathlib.Core.Path.{subst}
use account_management_servi.Task.Data.{NewTask}
use account_management_servi.Command.{
  AggregateError, user_error, aggregate_conflict, database_connection_error, deserialization_error,
  unexpected_error, conflict,
}
use account_management_servi.Command.Retry.{is_conflict, attempts, retry_on_aggregate_conflict}
use account_management_servi.Command.Executor.{map_aggregate_error, execute, mapped}
use account_management_servi.Application.Gateways.{Answer}
use account_management_servi.Infrastructure.{cqrs_executor, settled}
use account_management_servi.System.{Store, Same, Ran, commits, fails, refuses}

is_conflict-eq_err :
    {D : Type 0} (r : Result (AggregateError D) (Unit {0}))
    → is_conflict r ≡ true
    → map_err r map_aggregate_error ≡ err conflict
unfolding map_aggregate_error
is_conflict-eq_err (err aggregate_conflict) h = refl
is_conflict-eq_err (ok u) h = absurd (ground (arith, h))
is_conflict-eq_err (err (user_error e)) h = absurd (ground (arith, h))
is_conflict-eq_err (err database_connection_error) h = absurd (ground (arith, h))
is_conflict-eq_err (err deserialization_error) h = absurd (ground (arith, h))
is_conflict-eq_err (err unexpected_error) h = absurd (ground (arith, h))

settled-mapped :
    {D : Type 0} (r : Result (AggregateError D) (Unit {0}))
    → settled (mapped (some r)) ≡ map_err r map_aggregate_error
unfolding map_aggregate_error
settled-mapped (ok u) = refl
settled-mapped (err e) = refl

-- What the waits between attempts let others do to the store: any number of attempts that leave it as it is,
-- each followed by a wait.
pub data Waited {V W : Type 0} (store : Store V W) (sleep : ℕ → W → W) : W → W → Type 0 where
  at_once : (w : W) → Waited store sleep w w
  after :
      (n : ℕ) (w v last : W)
      → Same store w v
      → Waited store sleep (sleep n v) last
      → Waited store sleep w last

module _ {S C D V W : Type 0} (store : Store V W) (view : W → Text → S)
    (Accepts : S → C → S → Type 0) (Rejects : S → C → D → Type 0) (Beside : W → W → Type 0)
    (of_Same : (v w : W) → Same store v w → (id : Text) → view w id ≡ view v id)
    (Same-Beside : (u v w : W) → Same store u v → Beside v w → Beside u w) where
  Same-trans : (u v w : W) → Same store u v → Same store v w → Same store u w
  Same-trans u v w s t = record {
    reservations = λ id. t.reservations id ∙ s.reservations id;
    accounts = λ id. t.accounts id ∙ s.accounts id;
    tasks = t.tasks ∙ s.tasks;
  }

  abbrev RanHere : Text → C → List (NewTask V) → W → Answer D × W → Type 0
  RanHere id c tasks w (answer, w') = Ran store view Accepts Rejects Beside id c tasks w answer w'

  -- What runs on an unchanged store runs on the store itself.
  Same-Ran :
      (id : Text) (c : C) (tasks : List (NewTask V)) (u v : W) (x : Answer D × W)
      → Same store u v
      → RanHere id c tasks v x
      → RanHere id c tasks u x
  Same-Ran id c tasks u v (answer, w) s (commits a others appended beside q) =
      commits (subst (λ z. Accepts z c (view w id)) (of_Same u v s id) a)
        (λ other n. others other n ∙ of_Same u v s other) (appended ∙ ap (λ z. z ++ tasks) s.tasks)
        (Same-Beside u v w s beside) q
  Same-Ran id c tasks u v (answer, w) s (fails t q) = fails (Same-trans u v w s t) q
  Same-Ran id c tasks u v (answer, w) s (refuses e t q r) =
      refuses e (Same-trans u v w s t) q (subst (λ z. Rejects z c e) (of_Same u v s id) r)

  Ran-conflict :
      (id : Text) (c : C) (tasks : List (NewTask V)) (w w' : W) (answer : Answer D)
      → RanHere id c tasks w (answer, w')
      → answer ≡ err conflict
      → Same store w w'
  Ran-conflict id c tasks w w' answer (commits a others appended beside (inl q)) h =
      absurd (ground (arith, q, h))
  Ran-conflict id c tasks w w' answer (commits a others appended beside (inr q)) h =
      absurd (ground (arith, q, h))
  Ran-conflict id c tasks w w' answer (fails s q) h = s
  Ran-conflict id c tasks w w' answer (refuses e s q r) h = absurd (ground (arith, q, h))

  module _ {Fr : Type 0} (build_framework : List (NewTask V) → Fr)
      (framework_execute : Fr → Text → C → W → Result (AggregateError D) (Unit {0}) × W)
      (max_attempts : ℕ) (sleep : ℕ → W → W) (id : Text) (c : C) (tasks : List (NewTask V))
      (transacts : (w : W)
        → let (r, w') = framework_execute (build_framework tasks) id c w in
          RanHere id c tasks w (map_err r map_aggregate_error, w')) where
    abbrev Answered : W → Option (Result (AggregateError D) (Unit {0})) × W → Type 0
    Answered w (out, w') =
        (r : Result (AggregateError D) (Unit {0})) × (out ≡ some r)
        × (last : W) × Waited store sleep w last
        × RanHere id c tasks last (map_err r map_aggregate_error, w')

    attempts-Answered :
        (left attempt : ℕ) (w : W)
        → attempt + left ≡ max_attempts
        → Answered w (
            attempts max_attempts
              (framework_execute (build_framework tasks) id c)
              sleep
              (suc left)
              attempt
              w)
    unfolding attempts
    attempts-Answered zero attempt w h =
        elim (Bool-cases (
          is_conflict (framework_execute (build_framework tasks) id c w).0
          && ltb attempt max_attempts)) [
            | inl more ↦ absurd (ground arith)
            | inr done ↦ rw (done, attempts) (_, refl, w, at_once w, transacts w)
          ]
    attempts-Answered (suc left) attempt w h =
        let (r, w') = framework_execute (build_framework tasks) id c w in
        elim (Bool-cases (is_conflict r && ltb attempt max_attempts)) [
          | inl more ↦
              let (out, got, last, waited, ran) =
                attempts-Answered left (suc attempt) (sleep attempt w') (omega arith) in
              let same =
                Ran-conflict id c tasks w w' _ (transacts w)
                  (is_conflict-eq_err r (ground arith)) in
              rw (more, attempts) (out, got, last, after attempt w w' last same waited, ran)
          | inr done ↦ rw (done, attempts) (_, refl, w, at_once w, transacts w)
        ]

    retried-Answered :
        (rounds : ℕ) (w : W)
        → rounds ≡ max_attempts
        → 1 ≤ rounds
        → Answered w (
            attempts max_attempts (framework_execute (build_framework tasks) id c) sleep rounds 1 w)
    retried-Answered zero w e h = elim h [ ]
    retried-Answered (suc left) w e h = attempts-Answered left 1 w (omega arith)

    -- An executor with a positive attempt limit runs each command as one transaction, provided that the
    -- framework does, on what the waits between its attempts leave: conflicts that are retried leave
    -- nothing behind.
    pub executor-RanLast :
        1 ≤ max_attempts
        → (w : W)
        → (last : W) × Waited store sleep w last
          × RanHere id c tasks last
              (cqrs_executor build_framework framework_execute max_attempts sleep id c tasks w)
    unfolding execute retry_on_aggregate_conflict map_aggregate_error
    executor-RanLast positive w =
        let (r, got, last, waited, ran) = retried-Answered max_attempts w refl positive in
        let w' =
          (attempts max_attempts (framework_execute (build_framework tasks) id c) sleep max_attempts
            1 w).1 in
        (
          last,
          waited,
          subst (λ o. RanHere id c tasks last (settled (mapped o), w')) (sym got)
              (subst (λ a. RanHere id c tasks last (a, w')) (sym (settled-mapped r)) ran),
        )

    Waited-Same :
        ((n : ℕ) (w : W) → Same store w (sleep n w))
        → (w last : W) → Waited store sleep w last
        → Same store w last
    Waited-Same sleeps w last (at_once _) = record {
      reservations = λ i. refl;
      accounts = λ i. refl;
      tasks = refl;
    }
    Waited-Same sleeps w last (after n _ v _ s rest) =
        Same-trans w v last s
          (Same-trans v (sleep n v) last (sleeps n v) (Waited-Same sleeps (sleep n v) last rest))

    -- When nobody touches an aggregate or a task in the waits, it runs the command on the store itself.
    pub executor-Ran :
        ((n : ℕ) (w : W) → Same store w (sleep n w))
        → 1 ≤ max_attempts
        → (w : W)
        → RanHere id c tasks w
            (cqrs_executor build_framework framework_execute max_attempts sleep id c tasks w)
    executor-Ran sleeps positive w =
        let (last, waited, ran) = executor-RanLast positive w in
        Same-Ran id c tasks w last _ (Waited-Same sleeps w last waited) ran
