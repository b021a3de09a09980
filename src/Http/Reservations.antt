-- ===== src/Http/Reservations.antt =====
-- The handlers under /email-reservations
-- (account-managements-service/src/presentation/http/email_reservations). A payload or a path that axum rejects is
-- `none`; `parse_email` is `Email::parse` and `parse_id` the parsing of a UUID.
use account_management_servi.Base.{ℕ, Option, some, Text, text, Result, ok, ◌>>=◌, ok_or, map_err}
use account_management_servi.Domain.Email.{InvalidEmail}
use account_management_servi.Application.Reservations.{
  EmailReservationServiceError, ReservedEmail, VerifiedEmail,
}
use account_management_servi.Application.Reservations as Service
use account_management_servi.Http.{Response, error_response, with_retry_after, success, served}

pub data EmailReservationsError : Type 0 where
  invalid_request invalid_email already_reserved not_reserved : EmailReservationsError
  not_current_account_id already_verified account_creation_started : EmailReservationsError
  invalid_code conflict unavailable internal : EmailReservationsError

-- The rejections of the extractors and of the parsers.
abbrev pub from_json_rejection : EmailReservationsError
from_json_rejection = invalid_request

abbrev pub from_path_rejection : EmailReservationsError
from_path_rejection = invalid_request

abbrev pub from_uuid_error : EmailReservationsError
from_uuid_error = invalid_request

abbrev pub from_invalid_email : InvalidEmail → EmailReservationsError
from_invalid_email e = invalid_email

unfoldable pub from_service : EmailReservationServiceError → EmailReservationsError
from_service Service.already_reserved = already_reserved
from_service Service.not_reserved = not_reserved
from_service Service.not_current_account_id = not_current_account_id
from_service Service.already_verified = already_verified
from_service Service.account_creation_started = account_creation_started
from_service Service.invalid_verification_code = invalid_code
from_service Service.conflict = conflict
from_service Service.unavailable = unavailable
from_service (Service.unexpected_domain_rejection e) = internal

unfoldable pub into_response : {A : Type 0} → EmailReservationsError → Response A
into_response invalid_request = error_response 400 (text "invalid_request") (text "invalid request")
into_response invalid_email =
    error_response 422 (text "invalid_email") (text "invalid email address")
into_response already_reserved =
    error_response 409 (text "email_already_reserved") (text "email is already reserved")
into_response not_reserved =
    error_response 404 (text "email_not_reserved") (text "email is not reserved")
into_response not_current_account_id =
    error_response 404 (text "registration_not_current") (text "registration is not current")
into_response already_verified =
    error_response 409 (text "already_verified") (text "email is already verified")
into_response account_creation_started =
    error_response 409 (text "account_creation_started")
      (text "account creation has already started")
into_response invalid_code =
    error_response 422 (text "invalid_verification_code") (text "invalid verification code")
into_response conflict = with_retry_after (
    error_response 429 (text "email_reservation_conflict")
      (text "email reservation changed concurrently"))
into_response unavailable =
    error_response 503 (text "service_unavailable")
      (text "email reservation is temporarily unavailable")
into_response internal =
    error_response 500 (text "internal_error") (text "email reservation failed")

pub record VerifyEmailRequest : Type 0 where
  pub account_id : Text
  pub code : ℕ

module _ (parse_email : Text → Result InvalidEmail Text) where
  abbrev pub email_of : EmailReservationsError → Option Text → Result EmailReservationsError Text
  email_of rejection value = do
    email ← ok_or value rejection
    map_err (parse_email email) from_invalid_email

  unfoldable pub reserve :
      {W : Type 0}
      → (Text → W → Result EmailReservationServiceError ReservedEmail × W)
      → Option Text
      → W
      → Response ReservedEmail × W
  reserve service payload w =
      served into_response from_service (success 202) (email_of from_json_rejection payload) service
        w

  unfoldable pub request_code :
      {W : Type 0}
      → (Text → W → Result EmailReservationServiceError (Unit {0}) × W)
      → Option Text
      → W
      → Response Text × W
  request_code service path w =
      served into_response from_service (λ u. success 202 (text "verification_code_requested"))
        (email_of from_path_rejection path) service w

  -- The account ID is parsed before the email.
  abbrev pub verification_of :
      (Text → Option ℕ)
      → Option Text
      → Option VerifyEmailRequest
      → Result EmailReservationsError (Text × ℕ × ℕ)
  verification_of parse_id path payload = do
    value ← ok_or path from_path_rejection
    request ← ok_or payload from_json_rejection
    account_id ← ok_or (parse_id request.account_id) from_uuid_error
    email ← map_err (parse_email value) from_invalid_email
    ok (email, account_id, request.code)

  unfoldable pub verify :
      {W : Type 0}
      → (Text → Option ℕ)
      → (Text → ℕ → ℕ → W → Result EmailReservationServiceError VerifiedEmail × W)
      → Option Text
      → Option VerifyEmailRequest
      → W
      → Response VerifiedEmail × W
  verify parse_id service path payload w =
      served into_response from_service
        (λ v. record (success 200 v) { cache_control = some (text "no-store") })
        (verification_of parse_id path payload)
        (λ (email, account_id, code). service email account_id code) w
