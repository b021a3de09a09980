-- ===== src/Tests/Healthy.antt =====
-- The service in memory has no technical failures.
use account_management_servi.Base.{
  ℕ, ◌≡◌, ◌≢◌, refl, false, some, sym, List, [], Text, Result, ok, err, returns, rejects, panics,
  Outcome, arith,
}
use account_management_servi.Task.Data.{NewTask}
use account_management_servi.Command.{AggregateError}
use account_management_servi.Command.Executor.{map_aggregate_error, execute, mapped}
use account_management_servi.Command.Retry.{is_conflict, attempts, retry_on_aggregate_conflict}
use account_management_servi.Domain.EmailReservation.{
  EmailReservation, EmailReservationEvent, EmailReservationError, record_account_created,
}
use account_management_servi.Domain.EmailReservation.Aggregate as Reservation
use account_management_servi.Domain.EmailReservation.History.{execute-ne-panics}
use mathlib.Core.Path.{subst}
use account_management_servi.Domain.UserAccount.{
  UserAccount, UserAccountCommand, UserAccountEvent, UserAccountError,
}
use account_management_servi.Domain.UserAccount as Account
use account_management_servi.Application.Gateways.{aggregate_id}
use account_management_servi.Infrastructure.{
  account_aggregate_id, email_reservation_gateway, user_account_gateway, settled,
}
use account_management_servi.System.Healthy.{IsAnswered, CanCreate, CanComplete, Serializes}
use account_management_servi.Application.Registration.{CreateAccountTaskV1}
use account_management_servi.Application.Registration as Registration
use account_management_servi.Domain.Profile.{RegistrationProfile}
use account_management_servi.Tests.Memory.{
  Payload, World, reserved, created, reservations, accounts, services, uuid, recording,
}

no_conflict :
    {D : Type 0} (operation : World → Result (AggregateError D) (Unit {0}) × World)
    (sleep : ℕ → World → World) (w : World)
    → is_conflict (operation w).0 ≡ false
    → (retry_on_aggregate_conflict 2 operation sleep w).0 ≡ some (operation w).0
unfolding retry_on_aggregate_conflict attempts
no_conflict operation sleep w n = rw (n, attempts) refl

reserved-no_conflict :
    (w : World) (id : Text) (tasks : List (NewTask Payload))
    (x : Outcome EmailReservationError (EmailReservation × EmailReservationEvent))
    → x ≢ panics
    → (is_conflict (reserved w id tasks x).0 ≡ false)
      × IsAnswered (settled (mapped (some (reserved w id tasks x).0)))
unfolding map_aggregate_error
reserved-no_conflict w id tasks (returns (s, e)) n =
    (refl, (λ h. ground (arith, h), λ h. ground (arith, h)))
reserved-no_conflict w id tasks (rejects e) n =
    (refl, (λ h. ground (arith, h), λ h. ground (arith, h)))
reserved-no_conflict w id tasks panics n = absurd (n refl)

created-no_conflict :
    (w : World) (id : Text) (tasks : List (NewTask Payload))
    (x : Result UserAccountError (UserAccount × UserAccountEvent))
    → (is_conflict (created w id tasks x).0 ≡ false)
      × IsAnswered (settled (mapped (some (created w id tasks x).0)))
unfolding map_aggregate_error
created-no_conflict w id tasks (ok (s, e)) =
    (refl, (λ h. ground (arith, h), λ h. ground (arith, h)))
created-no_conflict w id tasks (err e) = (refl, (λ h. ground (arith, h), λ h. ground (arith, h)))

pub always_creates : (w : World) (t : CreateAccountTaskV1) → CanCreate services w t
unfolding email_reservation_gateway user_account_gateway execute
always_creates w t now tasks =
    let c = Registration.creation t now in
    let (n, healthy) =
      created-no_conflict w (account_aggregate_id uuid c) tasks
        (Account.execute (w.accounts (account_aggregate_id uuid c)) c) in
    subst (λ o. IsAnswered (settled (mapped o)))
      (sym (
        no_conflict (accounts.framework_execute tasks (account_aggregate_id uuid c) c)
          accounts.sleep w n))
      healthy

pub always_completes :
    (w : World) (email : Text) (i : ℕ) (profile : RegistrationProfile)
    → CanComplete services w email i profile
unfolding email_reservation_gateway user_account_gateway execute aggregate_id
always_completes w email i profile at =
    let c = record_account_created email i profile at in
    let (n, healthy) =
      reserved-no_conflict w (aggregate_id c) []
        (Reservation.execute (w.reservations (aggregate_id c)) c) (execute-ne-panics _ c) in
    subst (λ o. IsAnswered (settled (mapped o)))
      (sym
        (no_conflict (reservations.framework_execute [] (aggregate_id c) c) reservations.sleep w n))
      healthy

pub writes : Serializes services
unfolding email_reservation_gateway user_account_gateway
writes t = (recording t, refl, refl)
