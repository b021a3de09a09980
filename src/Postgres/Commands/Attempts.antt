-- ===== src/Postgres/Commands/Attempts.antt =====
-- What the attempts of a command leave in the database (cqrs-runtime/src/command/retry.rs, executor.rs).
use account_management_servi.Base.{
  ℕ, zero, suc, ◌+◌, ◌≤◌, ◌≡◌, refl, ◌⊎◌, inl, inr, true, ◌&&◌, Bool-cases, Option, some, List, [],
  Text, sym, arith, Result, ok, err, map_err, ltb,
}
use mathlib.Core.Path.{subst}
use account_management_servi.Task.Data.{NewTask}
use account_management_servi.Command.{
  AggregateError, user_error, aggregate_conflict, database_connection_error, deserialization_error,
  unexpected_error, CommandGatewayError, domain, conflict, unavailable,
}
use account_management_servi.Command.Retry.{is_conflict, attempts}
use account_management_servi.Command.Executor.{map_aggregate_error, mapped}
use account_management_servi.Postgres.WritePlan.{SerializedEvent}
use account_management_servi.Postgres.Write.{
  Database, Statement, PersistenceError, optimistic_lock, connection_error, unknown_error,
  persist_command,
}
use account_management_servi.Postgres.Commands.Persisted.{
  IsLoss, Stored, Persisted, persist_command-Persisted,
}

-- How cqrs-es turns an error of the repository into one of the command.
pub record IsConversion {D : Type 0} (from : PersistenceError → AggregateError D) : Type 0 where
  pub of_lock : from optimistic_lock ≡ aggregate_conflict
  pub of_connection : from connection_error ≡ database_connection_error
  pub of_unknown : from unknown_error ≡ unexpected_error

-- What the waits between the attempts let others do.
pub data Waited {V : Type 0} (sleep : ℕ → Database V → Database V)
    : Database V → Database V → Type 0 where
  at_once : (d : Database V) → Waited sleep d d
  after : (n : ℕ) (d d' : Database V) → Waited sleep (sleep n d) d' → Waited sleep d d'

module _ {D V : Type 0} (ty : Text) where
  -- What one attempt leaves, by its result.
  abbrev pub AttemptLeft :
      List (NewTask V) → Result (AggregateError D) (Unit {0}) → Database V → Database V → Type 0
  AttemptLeft tasks (ok u) d d' = ((tasks ≡ []) × (d' ≡ d)) ⊎ Stored ty tasks d d'
  AttemptLeft tasks (err (user_error e)) d d' = d' ≡ d
  AttemptLeft tasks (err aggregate_conflict) d d' = d' ≡ d
  AttemptLeft tasks (err database_connection_error) d d' = (d' ≡ d) ⊎ Stored ty tasks d d'
  AttemptLeft tasks (err deserialization_error) d d' = (d' ≡ d) ⊎ Stored ty tasks d d'
  AttemptLeft tasks (err unexpected_error) d d' = (d' ≡ d) ⊎ Stored ty tasks d d'

  -- What the command leaves, by its answer.
  abbrev pub AnswerLeft :
      List (NewTask V)
      → Result (CommandGatewayError D) (Unit {0})
      → Database V
      → Database V
      → Type 0
  AnswerLeft tasks (ok u) d d' = ((tasks ≡ []) × (d' ≡ d)) ⊎ Stored ty tasks d d'
  AnswerLeft tasks (err (domain e)) d d' = d' ≡ d
  AnswerLeft tasks (err conflict) d d' = d' ≡ d
  AnswerLeft tasks (err unavailable) d d' = (d' ≡ d) ⊎ Stored ty tasks d d'

  unchanged :
      (tasks : List (NewTask V)) (e : AggregateError D) (d d' : Database V)
      → d' ≡ d
      → AttemptLeft tasks (err e) d d'
  unchanged tasks (user_error e) d d' h = h
  unchanged tasks aggregate_conflict d d' h = h
  unchanged tasks database_connection_error d d' h = inl h
  unchanged tasks deserialization_error d d' h = inl h
  unchanged tasks unexpected_error d d' h = inl h

  conflict_unchanged :
      (tasks : List (NewTask V)) (x : Result (AggregateError D) (Unit {0})) (d d' : Database V)
      → is_conflict x ≡ true
      → AttemptLeft tasks x d d'
      → d' ≡ d
  conflict_unchanged tasks (err aggregate_conflict) d d' h left = left
  conflict_unchanged tasks (ok u) d d' h left = absurd (ground (arith, h))
  conflict_unchanged tasks (err (user_error e)) d d' h left = absurd (ground (arith, h))
  conflict_unchanged tasks (err database_connection_error) d d' h left = absurd (ground (arith, h))
  conflict_unchanged tasks (err deserialization_error) d d' h left = absurd (ground (arith, h))
  conflict_unchanged tasks (err unexpected_error) d d' h left = absurd (ground (arith, h))

  pub outward :
      (tasks : List (NewTask V)) (x : Result (AggregateError D) (Unit {0})) (d d' : Database V)
      → AttemptLeft tasks x d d'
      → (answer : Result (CommandGatewayError D) (Unit {0})) × (mapped (some x) ≡ some answer)
        × AnswerLeft tasks answer d d'
  unfolding map_aggregate_error
  outward tasks (ok u) d d' left = (ok u, refl, left)
  outward tasks (err (user_error e)) d d' left = (err (domain e), refl, left)
  outward tasks (err aggregate_conflict) d d' left = (err conflict, refl, left)
  outward tasks (err database_connection_error) d d' left = (err unavailable, refl, left)
  outward tasks (err deserialization_error) d d' left = (err unavailable, refl, left)
  outward tasks (err unexpected_error) d d' left = (err unavailable, refl, left)

  -- The framework's run of a command: it ends in an error without a write, or in one `persist` of the
  -- repository, whose answer it passes on. The database is the one that the write meets; what was loaded
  -- before, stale or not, is in the choice of the events and the snapshot.
  abbrev pub RunsOnce :
      (PersistenceError → AggregateError D)
      → List (NewTask V)
      → Database V
      → Result (AggregateError D) (Unit {0}) × Database V
      → Type 0
  RunsOnce from tasks d (x, d') =
      ((e : AggregateError D) × (x ≡ err e) × (d' ≡ d))
      ⊎ ((events : List (SerializedEvent V)) × (snapshot : Option (Text × V × ℕ)) × (s : Statement)
          × IsLoss s
          × (x ≡ map_err (persist_command ty tasks events snapshot s d).0 from)
          × (d' ≡ (persist_command ty tasks events snapshot s d).1))

  module _ (from : PersistenceError → AggregateError D) (conversion : IsConversion from) where
    converted :
        (tasks : List (NewTask V)) (answer : Result PersistenceError (Unit {0})) (d d' : Database V)
        → Persisted ty tasks answer d d'
        → AttemptLeft tasks (map_err answer from) d d'
    converted tasks (ok u) d d' p = p
    converted tasks (err optimistic_lock) d d' p =
        subst (λ e. AttemptLeft tasks (err e) d d') (sym conversion.of_lock) p
    converted tasks (err connection_error) d d' p =
        subst (λ e. AttemptLeft tasks (err e) d d') (sym conversion.of_connection) p
    converted tasks (err unknown_error) d d' p =
        subst (λ e. AttemptLeft tasks (err e) d d') (sym conversion.of_unknown) p

    run-AttemptLeft :
        (tasks : List (NewTask V)) (d d' : Database V) (x : Result (AggregateError D) (Unit {0}))
        → RunsOnce from tasks d (x, d')
        → AttemptLeft tasks x d d'
    run-AttemptLeft tasks d d' x (inl (e, q, p)) =
        subst (λ y. AttemptLeft tasks y d d') (sym q) (unchanged tasks e d d' p)
    run-AttemptLeft tasks d d' x (inr (events, snapshot, s, loss, q, p)) =
        subst (λ y. AttemptLeft tasks y d d') (sym q)
          (subst
            (λ z.
              AttemptLeft tasks (map_err (persist_command ty tasks events snapshot s d).0 from) d z)
            (sym p)
            (converted tasks (persist_command ty tasks events snapshot s d).0 d _
              (persist_command-Persisted ty tasks events snapshot s d loss)))

    module _ (tasks : List (NewTask V)) (sleep : ℕ → Database V → Database V)
        (run : Database V → Result (AggregateError D) (Unit {0}) × Database V)
        (once : (d : Database V) → RunsOnce from tasks d (run d)) (max_attempts : ℕ) where
      abbrev pub LoopLeft :
          Database V → Option (Result (AggregateError D) (Unit {0})) × Database V → Type 0
      LoopLeft d (out, d') =
          (x : Result (AggregateError D) (Unit {0})) × (out ≡ some x)
          × (last : Database V) × Waited sleep d last
          × AttemptLeft tasks x last d'

      once_left : (d : Database V) → AttemptLeft tasks (run d).0 d (run d).1
      once_left d = run-AttemptLeft tasks d (run d).1 (run d).0 (once d)

      ends_here : (d : Database V) → LoopLeft d (some (run d).0, (run d).1)
      ends_here d = ((run d).0, refl, d, at_once d, once_left d)

      tries_again :
          (n : ℕ) (d : Database V)
          (out : Option (Result (AggregateError D) (Unit {0})) × Database V)
          → is_conflict (run d).0 ≡ true
          → LoopLeft (sleep n (run d).1) out
          → LoopLeft d out
      tries_again n d out c (x, q, last, waited, left) = (
        x,
        q,
        last,
        after n d last (
            subst (λ z. Waited sleep (sleep n z) last)
              (conflict_unchanged tasks (run d).0 d (run d).1 c (once_left d)) waited),
        left,
      )

      attempts-LoopLeft :
          (left k : ℕ) (d : Database V)
          → k + suc left ≡ max_attempts
          → LoopLeft d (attempts max_attempts run sleep (suc left) (suc k) d)
      unfolding attempts
      attempts-LoopLeft zero k d h =
          elim (Bool-cases (is_conflict (run d).0 && ltb (suc k) max_attempts)) [
            | inl more ↦ absurd (ground arith)
            | inr done ↦ rw (done, attempts) (ends_here d)
          ]
      attempts-LoopLeft (suc left) k d h =
          elim (Bool-cases (is_conflict (run d).0 && ltb (suc k) max_attempts)) [
            | inl more ↦
                rw (more, attempts)
                  (tries_again (suc k) d _ (ground (arith, more))
                    (attempts-LoopLeft left (suc k) (sleep (suc k) (run d).1) (omega arith)))
            | inr done ↦ rw (done, attempts) (ends_here d)
          ]

      pub retry-LoopLeft :
          (rounds : ℕ) (d : Database V)
          → rounds ≡ max_attempts
          → 1 ≤ rounds
          → LoopLeft d (attempts max_attempts run sleep rounds 1 d)
      retry-LoopLeft zero d e h = elim h [ ]
      retry-LoopLeft (suc left) d e h = attempts-LoopLeft left 0 d (omega arith)
