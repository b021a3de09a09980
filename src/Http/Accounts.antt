-- ===== src/Http/Accounts.antt =====
-- The handler under /user-accounts (account-managements-service/src/presentation/http/user_accounts). A payload that
-- axum rejects is `none`; the parsers of emails, UUIDs and dates, the printing of a UUID and the percent
-- encoding of a path segment are parameters.
use account_management_servi.Base.{ℕ, Option, Text, text, Result, ok, ◌>>=◌, ◌++◌, ok_or, map_err}
use account_management_servi.Domain.Email.{InvalidEmail}
use account_management_servi.Domain.EmailReservation.{EmailReservationError}
use account_management_servi.Domain.EmailReservation as Domain
use account_management_servi.Application.Registration.{
  ProfileSubmission, AcceptedSubmission, SubmissionError, rejected,
}
use account_management_servi.Application.Registration as Service
use account_management_servi.Http.{Response, error_response, with_retry_after, success, served}

pub data UserAccountsError : Type 0 where
  invalid_request invalid_email invalid_profile invalid_account_creation_token : UserAccountsError
  registration_not_found registration_not_current email_not_verified : UserAccountsError
  profile_already_submitted conflict unavailable internal : UserAccountsError

-- The rejections of the extractors and of the parsers.
abbrev pub from_json_rejection : UserAccountsError
from_json_rejection = invalid_request

abbrev pub from_uuid_error : UserAccountsError
from_uuid_error = invalid_request

abbrev pub from_parse_error : UserAccountsError
from_parse_error = invalid_profile

abbrev pub from_invalid_email : InvalidEmail → UserAccountsError
from_invalid_email e = invalid_email

unfoldable pub from_submission : SubmissionError → UserAccountsError
from_submission (rejected Domain.invalid_account_creation_token) = invalid_account_creation_token
from_submission (rejected Domain.not_reserved) = registration_not_found
from_submission (rejected Domain.not_current_account_id) = registration_not_current
from_submission (rejected Domain.not_awaiting_profile) = email_not_verified
from_submission (rejected Domain.profile_already_submitted) = profile_already_submitted
from_submission (rejected Domain.empty_first_name) = invalid_profile
from_submission (rejected Domain.empty_last_name) = invalid_profile
from_submission (rejected Domain.future_date_of_birth) = invalid_profile
from_submission Service.conflict = conflict
from_submission Service.unavailable = unavailable
from_submission (rejected e) = internal

unfoldable pub into_response : {A : Type 0} → UserAccountsError → Response A
into_response invalid_request = error_response 400 (text "invalid_request") (text "invalid request")
into_response invalid_email =
    error_response 422 (text "invalid_email") (text "invalid email address")
into_response invalid_profile =
    error_response 422 (text "invalid_profile") (text "registration profile is invalid")
into_response invalid_account_creation_token =
    error_response 403 (text "invalid_account_creation_token")
      (text "account creation token is invalid")
into_response registration_not_found =
    error_response 404 (text "registration_not_found") (text "registration was not found")
into_response registration_not_current =
    error_response 404 (text "registration_not_current") (text "registration is not current")
into_response email_not_verified =
    error_response 409 (text "email_not_verified") (text "email has not been verified")
into_response profile_already_submitted =
    error_response 409 (text "profile_already_submitted")
      (text "a registration profile was already submitted")
into_response conflict =
    with_retry_after
      (error_response 429 (text "registration_conflict") (text "registration changed concurrently"))
into_response unavailable =
    error_response 503 (text "service_unavailable") (text "registration is temporarily unavailable")
into_response internal = error_response 500 (text "internal_error") (text "registration failed")

pub record SubmitProfileRequest : Type 0 where
  pub email : Text
  pub account_id : Text
  pub account_creation_token : Text
  pub first_name : Text
  pub last_name : Text
  pub date_of_birth : Text

pub record SubmitProfileResponse : Type 0 where
  pub account_id : ℕ
  pub status_url : Text

module _ (parse_email : Text → Result InvalidEmail Text)
    (parse_id parse_date : Text → Option ℕ) where
  abbrev pub submission_of :
      Option SubmitProfileRequest → Result UserAccountsError ProfileSubmission
  submission_of payload = do
    request ← ok_or payload from_json_rejection
    email ← map_err (parse_email request.email) from_invalid_email
    account_id ← ok_or (parse_id request.account_id) from_uuid_error
    date_of_birth ← ok_or (parse_date request.date_of_birth) from_parse_error
    ok (record {
      email = email;
      account_id = account_id;
      account_creation_token = request.account_creation_token;
      first_name = request.first_name;
      last_name = request.last_name;
      date_of_birth = date_of_birth;
    })

  unfoldable pub submit_profile :
      {W : Type 0}
      → (Text → Text)
      → (ℕ → Text)
      → (ProfileSubmission → W → Result SubmissionError AcceptedSubmission × W)
      → Option SubmitProfileRequest
      → W
      → Response SubmitProfileResponse × W
  submit_profile encode id_text service payload w =
      served into_response from_submission
        (λ (accepted : AcceptedSubmission). success 202 (record {
          account_id = accepted.account_id;
          status_url =
              text "/email-reservations/"
              ++ (encode accepted.email ++ (text "/registrations/" ++ id_text accepted.account_id));
        }))
        (submission_of payload) service w
