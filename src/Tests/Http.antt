-- ===== src/Tests/Http.antt =====
-- Requests of the HTTP handlers over services that run the aggregate in memory.
use account_management_servi.Base.{
  ℕ, ◌≡◌, ◌≢◌, refl, true, Option, none, some, Text, text, Result, ok, text_eq, trim, trim_start,
  trim_end, is_whitespace,
}
use account_management_servi.Domain.Email.{InvalidEmail}
use account_management_servi.Domain.EmailReservation.{
  EmailReservation, default, awaiting_code, awaiting_profile,
}
use account_management_servi.Task.Data.{new_task}
use account_management_servi.Domain.EmailReservation.Aggregate.{execute}
use account_management_servi.Application.Reservations as Service
use account_management_servi.Application.Registration as Registration
use account_management_servi.Http.Reservations.{reserve, verify, VerifyEmailRequest}
use account_management_servi.Http.Accounts.{submit_profile, SubmitProfileRequest}
use account_management_servi.Http.Answers.{verify-status, submit_profile-status}
use account_management_servi.Tests.Samples.{email, json, digest}
use account_management_servi.Tests.Services.{in_memory, in_memory-laws, no_accounts}

abbrev parse_email : Text → Result InvalidEmail Text
parse_email t = ok t

abbrev parse_id : Text → Option ℕ
parse_id t = some 7

abbrev parse_date : Text → Option ℕ
parse_date t = some 7_436

abbrev now : ℕ
now = 1_700_000_000_000_000_000

abbrev verification : VerifyEmailRequest
verification = record { account_id = text "7"; code = 1_234_567 }

abbrev reserved : EmailReservation
reserved = record { phase = awaiting_code 7 1_234_567 }

abbrev verified : EmailReservation
verified = record { phase = awaiting_profile 7 digest }

abbrev submission : SubmitProfileRequest
submission = record {
  email = email;
  account_id = text "7";
  account_creation_token = text "token";
  first_name = text "Ann";
  last_name = text "Lee";
  date_of_birth = text "1990-05-12";
}

verify-status_example :
    (verify parse_email parse_id
      (Service.confirm_email json (λ t. some true) in_memory (λ t. digest) (text "token"))
      (some email)
      (some verification)
      reserved).0.status
    ≢ 500
verify-status_example =
    verify-status json in_memory in_memory-laws parse_email (λ t. some true) (λ t. digest)
      (text "token") parse_id (some email) (some verification) reserved

submit_profile-status_example :
    (submit_profile parse_email parse_id parse_date
      (λ t. t)
      (λ n. text "7")
      (Registration.submit_profile json in_memory no_accounts (λ t. some true) (λ t. digest) now 1)
      (some submission)
      verified).0.status
    ≢ 500
submit_profile-status_example =
    submit_profile-status json in_memory in_memory-laws parse_email no_accounts (λ t. some true)
      (λ t. digest) (λ t. t) (λ n. text "7") parse_id parse_date now 1 (some submission) verified

-- A first reservation is accepted, its code confirmed, and its profile accepted.
accepted :
    (reserve parse_email
      (Service.reserve json (λ t. some true) in_memory 1 7 1_234_567)
      (some email)
      default).0.status
    ≡ 202
unfolding reserve Service.reserve Service.code_task new_task execute
accepted = refl

confirmed :
    verify parse_email parse_id
      (Service.confirm_email json (λ t. some true) in_memory (λ t. digest) (text "token"))
      (some email)
      (some verification)
      reserved
    ≡ (
      record {
        status = 200;
        retry_after = none;
        cache_control = some (text "no-store");
        body = ok (record { email = email; account_id = 7; account_creation_token = text "token" });
      },
      verified,
    )
unfolding verify Service.confirm_email execute
confirmed = refl

submitted :
    (submit_profile parse_email parse_id parse_date
      (λ t. t)
      (λ n. text "7")
      (Registration.submit_profile json in_memory no_accounts (λ t. some true) (λ t. digest) now 1)
      (some submission)
      verified).0.status
    ≡ 202
unfolding submit_profile Registration.submit_profile new_task execute text_eq trim trim_start
    trim_end is_whitespace
submitted = refl
