-- ===== src/Application/Gateways.antt =====
-- The command gateways (account-managements-service/src/application/*/gateway.rs) as an interface over a
-- world `W`, the rejections that a gateway may answer with, and the aggregate that each command addresses
-- (account-managements-service/src/infrastructure/cqrs).
use account_management_servi.Base.{ℕ, ◌≡◌, some, List, Text, Result, err, rejects}
use account_management_servi.Task.Data.{NewTask}
use account_management_servi.Command.{CommandGatewayError, domain}
use account_management_servi.Domain.EmailReservation.{
  EmailReservation, EmailReservationCommand, reserve_email, request_verification_code, verify_email,
  submit_registration_profile, record_account_created, EmailReservationError,
}
use account_management_servi.Domain.EmailReservation.Aggregate as Reservation
use account_management_servi.Domain.UserAccount as Account
use account_management_servi.Domain.UserAccount.{
  UserAccount, UserAccountCommand, create_account, UserAccountError, CreatedAccount,
}

abbrev pub Answer : Type 0 → Type 0
Answer D = Result (CommandGatewayError D) (Unit {0})

pub record EmailReservationGateway (V W : Type 0) : Type 0 where
  pub execute : EmailReservationCommand → W → Answer EmailReservationError × W
  pub execute_with_outbox :
      EmailReservationCommand → List (NewTask V) → W → Answer EmailReservationError × W

pub record UserAccountGateway (V W : Type 0) : Type 0 where
  pub execute_with_outbox : UserAccountCommand → List (NewTask V) → W → Answer UserAccountError × W

-- A domain rejection comes from the aggregate in some state: the one that the command was run on.
pub record RejectsAsReservation {V W : Type 0} (gateway : EmailReservationGateway V W)
    : Type 0 where
  pub of_execute :
      (c : EmailReservationCommand) (w : W) (e : EmailReservationError)
      → (gateway.execute c w).0 ≡ err (domain e)
      → (s : EmailReservation) × (Reservation.execute s c ≡ rejects e)
  pub of_outbox :
      (c : EmailReservationCommand) (tasks : List (NewTask V)) (w : W) (e : EmailReservationError)
      → (gateway.execute_with_outbox c tasks w).0 ≡ err (domain e)
      → (s : EmailReservation) × (Reservation.execute s c ≡ rejects e)

-- The account that a command addresses.
abbrev pub addressed : UserAccountCommand → ℕ
addressed (create_account i e f l d v at) = i

-- The same of accounts, which are known by their IDs: the state that rejects is one of the addressed
-- account, and an account that is created by now is still the same in it.
pub record RejectsAsAccount {V W : Type 0} (account : W → ℕ → UserAccount)
    (gateway : UserAccountGateway V W) : Type 0 where
  pub of_account :
      (c : UserAccountCommand) (tasks : List (NewTask V)) (w : W) (e : UserAccountError)
      → (gateway.execute_with_outbox c tasks w).0 ≡ err (domain e)
      → (s : UserAccount) × ((x : CreatedAccount)
          → (account w (addressed c)).created ≡ some x
          → s.created ≡ some x)
        × (Account.execute s c ≡ err e)

-- A reservation is the aggregate of its email.
unfoldable pub aggregate_id : EmailReservationCommand → Text
aggregate_id (reserve_email email i c) = email
aggregate_id (request_verification_code email i c) = email
aggregate_id (verify_email email i c t) = email
aggregate_id (submit_registration_profile email i t p) = email
aggregate_id (record_account_created email i p at) = email
