-- ===== src/System/Gateways.antt =====
-- The gateways over the command executors
-- (account-managements-service/src/infrastructure/cqrs, startup/wiring.rs).
use account_management_servi.Base.{ℕ, ◌≤◌, List, [], Text, ◌∙◌, Result, map_err}
use account_management_servi.Task.Data.{NewTask, TaskAttempt}
use account_management_servi.Command.{AggregateError}
use account_management_servi.Command.Executor.{map_aggregate_error}
use account_management_servi.Domain.EmailReservation.{
  EmailReservationCommand, EmailReservationError,
}
use account_management_servi.Domain.UserAccount.{UserAccountCommand, UserAccountError}
use account_management_servi.Application.Gateways.{aggregate_id}
use account_management_servi.Application.Tasks.{Services, VerificationCodeDelivery}
use account_management_servi.Infrastructure.{
  cqrs_executor, email_reservation_gateway, user_account_gateway, account_aggregate_id,
}
use account_management_servi.System.{
  Store, Same, RunsOn, RanReservation, RanAccount, AcceptsReservation, RejectsReservation,
  AcceptsAccount, RejectsAccount,
}
use account_management_servi.System.Executors.{Waited, executor-RanLast, executor-Ran}

-- A framework for one kind of aggregate, and the policy that its executor retries conflicts by.
pub record Framework (D C V W : Type 0) : Type 1 where
  pub Built : Type 0
  pub build_framework : List (NewTask V) → Built
  pub framework_execute : Built → Text → C → W → Result (AggregateError D) (Unit {0}) × W
  pub max_attempts : ℕ
  pub sleep : ℕ → W → W

module _ {V W : Type 0} (store : Store V W) (uuid : ℕ → Text)
    (reservations : Framework EmailReservationError EmailReservationCommand V W)
    (accounts : Framework UserAccountError UserAccountCommand V W) where
  -- The services of `with_gateways`, over the executors of the two frameworks.
  abbrev pub wired : Services V W → Services V W
  unfolding email_reservation_gateway user_account_gateway
  wired services = record services {
    email_gateway = email_reservation_gateway (
        cqrs_executor reservations.build_framework reservations.framework_execute
          reservations.max_attempts reservations.sleep);
    account_gateway = user_account_gateway uuid (
        cqrs_executor accounts.build_framework accounts.framework_execute accounts.max_attempts
          accounts.sleep);
  }

  -- What the executors rely on: a framework runs a command as one transaction.
  pub record Transacts : Type 0 where
    pub positive : (1 ≤ reservations.max_attempts) × (1 ≤ accounts.max_attempts)
    pub reservation :
        (c : EmailReservationCommand) (tasks : List (NewTask V)) (w : W)
        → let (r, w') =
            reservations.framework_execute
              (reservations.build_framework tasks)
              (aggregate_id c)
              c
              w in
          RanReservation store c tasks w (map_err r map_aggregate_error, w')
    pub account :
        (c : UserAccountCommand) (tasks : List (NewTask V)) (w : W)
        → let (r, w') =
            accounts.framework_execute
              (accounts.build_framework tasks)
              (account_aggregate_id uuid c)
              c
              w in
          RanAccount store uuid c tasks w (map_err r map_aggregate_error, w')

  -- Each gateway runs a command as one transaction on what the waits of its retries leave.
  pub record RunsLast (services : Services V W) : Type 0 where
    pub execute :
        (c : EmailReservationCommand) (w : W)
        → (last : W) × Waited store reservations.sleep w last
          × RanReservation store c [] last (services.email_gateway.execute c w)
    pub execute_with_outbox :
        (c : EmailReservationCommand) (tasks : List (NewTask V)) (w : W)
        → (last : W) × Waited store reservations.sleep w last
          × RanReservation store c tasks last (services.email_gateway.execute_with_outbox c tasks w)
    pub create :
        (c : UserAccountCommand) (tasks : List (NewTask V)) (w : W)
        → (last : W) × Waited store accounts.sleep w last
          × RanAccount store uuid c tasks last
              (services.account_gateway.execute_with_outbox c tasks w)

  reservation_ran :
      (c : EmailReservationCommand) (tasks : List (NewTask V)) (h : Transacts) (w : W)
      → (last : W) × Waited store reservations.sleep w last
        × RanReservation store c tasks last (
            cqrs_executor reservations.build_framework reservations.framework_execute
              reservations.max_attempts reservations.sleep
              (aggregate_id c)
              c
              tasks
              w)
  unfolding aggregate_id
  reservation_ran c tasks h w =
      executor-RanLast store store.reservation AcceptsReservation RejectsReservation _
        (λ v u s. s.reservations) (λ u v x s b id. b id ∙ s.accounts id)
        reservations.build_framework reservations.framework_execute reservations.max_attempts
        reservations.sleep (aggregate_id c) c tasks (h.reservation c tasks) h.positive.0 w

  -- The gateways that the service is wired with run each command as one transaction on the aggregate that
  -- the command addresses, and publish its tasks in it, when the frameworks under them run each attempt as
  -- one and the attempt limits are positive. Others may change any aggregate and publish any task in the
  -- waits between the attempts: every attempt but the last leaves the store as it is, and the last one runs
  -- the command on what the waits have left.
  pub wired-RunsLast : (services : Services V W) → Transacts → RunsLast (wired services)
  unfolding email_reservation_gateway user_account_gateway aggregate_id
  wired-RunsLast services h = record {
    execute = λ c w. reservation_ran c [] h w;
    execute_with_outbox = λ c tasks w. reservation_ran c tasks h w;
    create = λ c tasks w.
        executor-RanLast store store.account AcceptsAccount RejectsAccount _ (λ v u s. s.accounts)
          (λ u v x s b id. b id ∙ s.reservations id) accounts.build_framework
          accounts.framework_execute accounts.max_attempts accounts.sleep
          (account_aggregate_id uuid c) c tasks (h.account c tasks) h.positive.1 w;
  }

  -- When nobody touches an aggregate or a task in the waits, and the sender of codes does not either, each
  -- command runs on the store itself.
  pub wired-RunsOn :
      (services : Services V W)
      → Transacts
      → ((n : ℕ) (w : W) → Same store w (reservations.sleep n w))
      → ((n : ℕ) (w : W) → Same store w (accounts.sleep n w))
      → ((message : VerificationCodeDelivery) (delivery : TaskAttempt V) (w : W)
          → Same store w (services.sender message delivery w).1)
      → RunsOn store uuid (wired services)
  unfolding email_reservation_gateway user_account_gateway aggregate_id
  wired-RunsOn services h quiet quiet' sends = record {
    execute = λ c w.
        executor-Ran store store.reservation AcceptsReservation RejectsReservation _
          (λ v u s. s.reservations) (λ u v x s b id. b id ∙ s.accounts id)
          reservations.build_framework reservations.framework_execute reservations.max_attempts
          reservations.sleep (aggregate_id c) c [] (h.reservation c []) quiet h.positive.0 w;
    execute_with_outbox = λ c tasks w.
        executor-Ran store store.reservation AcceptsReservation RejectsReservation _
          (λ v u s. s.reservations) (λ u v x s b id. b id ∙ s.accounts id)
          reservations.build_framework reservations.framework_execute reservations.max_attempts
          reservations.sleep (aggregate_id c) c tasks (h.reservation c tasks) quiet h.positive.0 w;
    create = λ c tasks w.
        executor-Ran store store.account AcceptsAccount RejectsAccount _ (λ v u s. s.accounts)
          (λ u v x s b id. b id ∙ s.reservations id) accounts.build_framework
          accounts.framework_execute accounts.max_attempts accounts.sleep
          (account_aggregate_id uuid c) c tasks (h.account c tasks) quiet' h.positive.1 w;
    send = λ message delivery w. sends message delivery w;
  }
