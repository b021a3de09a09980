-- ===== src/Application/Registration.antt =====
-- The registration service and its continuation tasks
-- (account-managements-service/src/application/user_account). `digest` is the hexadecimal SHA-256 of a token;
-- the clock's time and the tasks' UUIDs are arguments.
pub mod Continuation
use account_management_servi.Base.{
  ℕ, ◌+◌, ◌*◌, ◌/◌, Option, none, some, List, [], ◌∷◌, Text, text, Result, ok, err, pos,
}
use account_management_servi.Task.Data.{Json, NewTask, TaskPayload, TaskValidationError, new_task}
use account_management_servi.Task.Dispatcher as Handling
use account_management_servi.Command.{CommandGatewayError, domain}
use account_management_servi.Command as Gateway
use account_management_servi.Domain.Profile
use account_management_servi.Domain.Profile.{RegistrationProfile}
use account_management_servi.Domain.EmailReservation.{
  EmailReservationError, submit_registration_profile, record_account_created,
  account_creation_already_completed,
}
use account_management_servi.Domain.UserAccount.{UserAccountError, already_created}
use account_management_servi.Domain.UserAccount as Account
use account_management_servi.Application.Gateways.{
  EmailReservationGateway, UserAccountGateway, Answer,
}

pub record ProfileSubmission : Type 0 where
  pub email : Text
  pub account_id : ℕ
  pub account_creation_token : Text
  pub first_name : Text
  pub last_name : Text
  pub date_of_birth : ℕ

pub record AcceptedSubmission : Type 0 where
  pub email : Text
  pub account_id : ℕ

pub data SubmissionError : Type 0 where
  rejected : EmailReservationError → SubmissionError
  conflict unavailable : SubmissionError

pub data ContinuationError : Type 0 where
  retry permanent : ContinuationError

pub record CreateAccountTaskV1 : Type 0 where
  pub email : Text
  pub account_id : ℕ
  pub profile : RegistrationProfile

pub record RecordAccountCreatedTaskV1 : Type 0 where
  pub email : Text
  pub account_id : ℕ
  pub profile : RegistrationProfile
  pub created_at : ℕ

abbrev pub create_account_payload :
    {V : Type 0} → (CreateAccountTaskV1 → Option V) → TaskPayload V CreateAccountTaskV1
create_account_payload to_value = record {
  task_type = text "create_account";
  task_version = pos 1;
  to_value = to_value;
}

abbrev pub record_account_created_payload :
    {V : Type 0}
    → (RecordAccountCreatedTaskV1 → Option V)
    → TaskPayload V RecordAccountCreatedTaskV1
record_account_created_payload to_value = record {
  task_type = text "record_account_created";
  task_version = pos 1;
  to_value = to_value;
}

-- `date_naive`, of nanoseconds.
abbrev pub date_of : ℕ → ℕ
date_of t = t / 86_400_000_000_000

-- What each method makes of its gateway's answer.
abbrev pub submission_answer :
    {W : Type 0}
    → AcceptedSubmission
    → Answer EmailReservationError × W
    → Result SubmissionError AcceptedSubmission × W
submission_answer a (ok u, w) = (ok a, w)
submission_answer a (err Gateway.conflict, w) = (err conflict, w)
submission_answer a (err Gateway.unavailable, w) = (err unavailable, w)
submission_answer a (err (domain e), w) = (err (rejected e), w)

abbrev pub creation_answer :
    {W : Type 0} → Answer UserAccountError × W → Result ContinuationError (Unit {0}) × W
creation_answer (ok u, w) = (ok tt, w)
creation_answer (err (domain already_created), w) = (ok tt, w)
creation_answer (err Gateway.conflict, w) = (err retry, w)
creation_answer (err Gateway.unavailable, w) = (err retry, w)
creation_answer (err (domain _), w) = (err permanent, w)

abbrev pub record_answer :
    {W : Type 0} → Answer EmailReservationError × W → Result ContinuationError (Unit {0}) × W
record_answer (ok u, w) = (ok tt, w)
record_answer (err (domain account_creation_already_completed), w) = (ok tt, w)
record_answer (err Gateway.conflict, w) = (err retry, w)
record_answer (err Gateway.unavailable, w) = (err retry, w)
record_answer (err (domain _), w) = (err permanent, w)

-- A method whose task cannot be built fails before its command.
abbrev pub with_task :
    {V W E A : Type 0}
    → E
    → Result TaskValidationError (NewTask V)
    → (NewTask V → Result E A × W)
    → W
    → Result E A × W
with_task e (ok task) k w = k task
with_task e (err x) k w = (err e, w)

-- The command of a creation task.
abbrev pub creation : CreateAccountTaskV1 → ℕ → Account.UserAccountCommand
creation t created_at =
    Account.create_account t.account_id t.email t.profile.first_name t.profile.last_name
      t.profile.date_of_birth t.profile.validation_date created_at

module _ {V W : Type 0} (json : Json V) (email_gateway : EmailReservationGateway V W)
    (account_gateway : UserAccountGateway V W) where
  unfoldable pub submit_profile :
      (CreateAccountTaskV1 → Option V)
      → (Text → Text)
      → ℕ
      → ℕ
      → ProfileSubmission
      → W
      → Result SubmissionError AcceptedSubmission × W
  submit_profile to_value digest now task_id s w =
      let profile = Profile.new s.first_name s.last_name s.date_of_birth (date_of now) in
      with_task unavailable
        (new_task json (create_account_payload to_value) task_id
          (record { email = s.email; account_id = s.account_id; profile = profile }))
        (λ task.
          submission_answer (record { email = s.email; account_id = s.account_id })
            (email_gateway.execute_with_outbox
              (submit_registration_profile s.email s.account_id (digest s.account_creation_token)
                profile)
              (task ∷ []) w))
        w

  unfoldable pub create_account :
      (RecordAccountCreatedTaskV1 → Option V)
      → ℕ
      → ℕ
      → CreateAccountTaskV1
      → W
      → Result ContinuationError (Unit {0}) × W
  create_account to_value now task_id t w =
      with_task permanent
        (new_task json (record_account_created_payload to_value) task_id (record {
          email = t.email;
          account_id = t.account_id;
          profile = t.profile;
          created_at = now;
        }))
        (λ completion.
          creation_answer
            (account_gateway.execute_with_outbox (creation t now) (completion ∷ []) w))
        w

  unfoldable pub record_created :
      RecordAccountCreatedTaskV1 → W → Result ContinuationError (Unit {0}) × W
  record_created t w =
      record_answer (
        email_gateway.execute (record_account_created t.email t.account_id t.profile t.created_at)
          w)

-- How a continuation's failure settles its delivery.
unfoldable pub delivery_error : ContinuationError → Handling.TaskHandlerError
delivery_error retry =
    Handling.retry (text "registration continuation temporarily unavailable") none
delivery_error permanent = Handling.permanent (text "registration continuation data does not match")
