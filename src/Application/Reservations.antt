-- ===== src/Application/Reservations.antt =====
-- The use cases of an email reservation (account-managements-service/src/application/email_reservation):
-- reserving, requesting a new code, confirming. `digest` is the hexadecimal SHA-256 of a token; the
-- generator's values are arguments.
pub mod Expected
use account_management_servi.Base.{
  ℕ, Option, none, some, ◌≡◌, ◌≢◌, refl, ◌⊎◌, inl, inr, Bool, true, ◌&&◌, not, List, [], ◌∷◌, Text,
  text, if◌then◌else◌, Result, ok, err, pos, rejects, arith, Result-cases,
}
use account_management_servi.Task.Data.{Json, NewTask, TaskPayload, TaskValidationError, new_task}
use account_management_servi.Command.{CommandGatewayError, domain}
use account_management_servi.Command as Gateway
use account_management_servi.Domain.EmailReservation.{
  EmailReservation, EmailReservationCommand, reserve_email, request_verification_code, verify_email,
  EmailReservationError,
}
use account_management_servi.Domain.EmailReservation as Domain_reservation
use account_management_servi.Domain.EmailReservation.Handlers.{is_code}
use account_management_servi.Domain.EmailReservation.Aggregate as Reservation
use account_management_servi.Application.Gateways.{
  EmailReservationGateway, RejectsAsReservation, Answer,
}

pub data EmailReservationServiceError : Type 0 where
  already_reserved not_reserved not_current_account_id already_verified account_creation_started :
      EmailReservationServiceError
  invalid_verification_code conflict unavailable : EmailReservationServiceError
  unexpected_domain_rejection : EmailReservationError → EmailReservationServiceError

pub record ReservedEmail : Type 0 where
  pub email : Text
  pub account_id : ℕ

pub record VerifiedEmail : Type 0 where
  pub email : Text
  pub account_id : ℕ
  pub account_creation_token : Text

pub record SendVerificationCodeTaskV1 : Type 0 where
  pub email : Text
  pub account_id : ℕ
  pub verification_code : ℕ

abbrev pub send_verification_code :
    {V : Type 0}
    → (SendVerificationCodeTaskV1 → Option V)
    → TaskPayload V SendVerificationCodeTaskV1
send_verification_code to_value = record {
  task_type = text "send_verification_code";
  task_version = pos 1;
  to_value = to_value;
}

unfoldable pub reserve_error :
    CommandGatewayError EmailReservationError → EmailReservationServiceError
reserve_error (domain Domain_reservation.already_reserved) = already_reserved
reserve_error Gateway.conflict = conflict
reserve_error (domain e) = unexpected_domain_rejection e
reserve_error Gateway.unavailable = unavailable

unfoldable pub request_error :
    CommandGatewayError EmailReservationError → EmailReservationServiceError
request_error (domain Domain_reservation.account_id_unchanged) = conflict
request_error Gateway.conflict = conflict
request_error (domain Domain_reservation.not_reserved) = not_reserved
request_error (domain Domain_reservation.account_creation_started) = account_creation_started
request_error (domain e) = unexpected_domain_rejection e
request_error Gateway.unavailable = unavailable

unfoldable pub confirm_error :
    CommandGatewayError EmailReservationError → EmailReservationServiceError
confirm_error (domain Domain_reservation.not_reserved) = not_reserved
confirm_error (domain Domain_reservation.not_current_account_id) = not_current_account_id
confirm_error (domain Domain_reservation.already_verified) = already_verified
confirm_error (domain Domain_reservation.account_creation_started) = account_creation_started
confirm_error (domain Domain_reservation.invalid_verification_code) = invalid_verification_code
confirm_error (domain e) = unexpected_domain_rejection e
confirm_error Gateway.conflict = conflict
confirm_error Gateway.unavailable = unavailable

-- The answer of a gateway, as the use case passes it on.
abbrev pub answer_with :
    {A W : Type 0}
    → (CommandGatewayError EmailReservationError → EmailReservationServiceError)
    → A
    → Answer EmailReservationError × W
    → Result EmailReservationServiceError A × W
answer_with mapping a (ok u, w) = (ok a, w)
answer_with mapping a (err e, w) = (err (mapping e), w)

-- A task that cannot be built, and the rest of a use case once it is built.
abbrev pub unavailable_unless :
    {V : Type 0}
    → Result TaskValidationError (NewTask V)
    → Result EmailReservationServiceError (NewTask V)
unavailable_unless (ok task) = ok task
unavailable_unless (err e) = err unavailable

abbrev pub with_task :
    {V W A : Type 0}
    → Result EmailReservationServiceError (NewTask V)
    → (NewTask V → Result EmailReservationServiceError A × W)
    → W
    → Result EmailReservationServiceError A × W
with_task (ok task) k w = k task
with_task (err e) k w = (err e, w)

-- `NewTask::new(SendVerificationCodeTaskV1 { .. })`.
abbrev pub code_payload :
    {V : Type 0}
    → Json V
    → (SendVerificationCodeTaskV1 → Option V)
    → ℕ
    → Text
    → ℕ
    → ℕ
    → Result TaskValidationError (NewTask V)
code_payload json to_value task_id email account_id verification_code =
    new_task json (send_verification_code to_value) task_id
      (record { email = email; account_id = account_id; verification_code = verification_code })

module _ {V W : Type 0} (json : Json V) (to_value : SendVerificationCodeTaskV1 → Option V)
    (gateway : EmailReservationGateway V W) where
  -- The task of a code; `task_id` is its generated UUID.
  unfoldable pub code_task : ℕ → Text → ℕ → ℕ → Result EmailReservationServiceError (NewTask V)
  code_task task_id email account_id verification_code =
      unavailable_unless (code_payload json to_value task_id email account_id verification_code)

  unfoldable pub reserve :
      ℕ → ℕ → ℕ → Text → W → Result EmailReservationServiceError ReservedEmail × W
  unfolding reserve_error code_task
  reserve task_id account_id verification_code email w =
      with_task (code_task task_id email account_id verification_code)
        (λ task.
          answer_with reserve_error (record { email = email; account_id = account_id })
            (gateway.execute_with_outbox (reserve_email email account_id verification_code)
              (task ∷ []) w))
        w

  unfoldable pub request_new_verification_code :
      ℕ → ℕ → ℕ → Text → W → Result EmailReservationServiceError (Unit {0}) × W
  unfolding request_error code_task
  request_new_verification_code task_id account_id verification_code email w =
      with_task (code_task task_id email account_id verification_code)
        (λ task. answer_with request_error tt (
          gateway.execute_with_outbox (request_verification_code email account_id verification_code)
            (task ∷ []) w))
        w

  unfoldable pub confirm_email :
      (Text → Text)
      → Text
      → Text
      → ℕ
      → ℕ
      → W
      → Result EmailReservationServiceError VerifiedEmail × W
  unfolding confirm_error
  confirm_email digest token email account_id code w =
      if not (is_code code)
      then (err invalid_verification_code, w)
      else answer_with confirm_error
          (record { email = email; account_id = account_id; account_creation_token = token })
          (gateway.execute (verify_email email account_id code (digest token)) w)
