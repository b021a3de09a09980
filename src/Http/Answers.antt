-- ===== src/Http/Answers.antt =====
-- The handlers over the services of the application, and the statuses that they answer with
-- (account-managements-service/src/presentation/http).
use account_management_servi.Base.{
  ℕ, Option, ◌≡◌, ◌≢◌, refl, true, Text, Result, ok, err, rejects, arith, [], ◌∷◌,
}
use account_management_servi.Task.Data.{Json, NewTask, TaskValidationError, new_task}
use account_management_servi.Command.{domain}
use account_management_servi.Command as Gateway
use account_management_servi.Domain.Profile.{RegistrationProfile}
use account_management_servi.Domain.Email.{InvalidEmail}
use account_management_servi.Domain.EmailReservation.{
  EmailReservation, EmailReservationError, submit_registration_profile,
}
use account_management_servi.Domain.EmailReservation.Handlers.{is_code}
use account_management_servi.Domain.EmailReservation.Aggregate as Reservation
use account_management_servi.Application.Gateways.{
  EmailReservationGateway, UserAccountGateway, RejectsAsReservation, Answer,
}
use account_management_servi.Application.Reservations as Service
use account_management_servi.Application.Reservations.{
  EmailReservationServiceError, SendVerificationCodeTaskV1,
}
use account_management_servi.Application.Reservations.Expected.{
  IsExpected, IsExpectedError, reserve-IsExpected, request-IsExpected, confirm_email-IsExpected,
}
use account_management_servi.Application.Registration as Registration
use account_management_servi.Application.Registration.{
  CreateAccountTaskV1, SubmissionError, rejected, AcceptedSubmission, submission_answer,
}
use account_management_servi.Http.{Response, served, answered}
use account_management_servi.Http.Reservations.{
  EmailReservationsError, from_service, into_response, reserve, request_code, verify, email_of,
  verification_of, VerifyEmailRequest, invalid_request,
}
use account_management_servi.Http.Accounts as Accounts
use account_management_servi.Http.Accounts.{
  UserAccountsError, from_submission, SubmitProfileRequest, SubmitProfileResponse, submit_profile,
  submission_of,
}

-- A handler of either resource: its requests and its service are known not to end in an internal error.
served-status :
    {S E I A B W : Type 0} (into : E → Response B) (from : S → E) (respond : A → Response B)
    (request : Result E I) (service : I → W → Result S A × W) (w : W)
    → ((e : E) → request ≡ err e → (into e).status ≢ 500)
    → ((i : I) → (answered into from respond (service i w)).0.status ≢ 500)
    → (served into from respond request service w).0.status ≢ 500
served-status into from respond (ok i) service w h k = k i
served-status into from respond (err e) service w h k = h e refl

service_error-status :
    (B : Type 0) (e : EmailReservationServiceError)
    → IsExpectedError e
    → (into_response {A = B} (from_service e)).status ≢ 500
unfolding from_service into_response
service_error-status B e h q = ground arith

expected_error :
    (A W : Type 0) (e : EmailReservationServiceError) (w : W)
    → IsExpected {A = A} {W = W} (err e, w)
    → IsExpectedError e
unfolding IsExpected
expected_error A W e w h = ground arith

answered-status :
    {A B W : Type 0} (respond : A → Response B) (x : Result EmailReservationServiceError A × W)
    → IsExpected x
    → ((a : A) → (respond a).status ≢ 500)
    → (answered into_response from_service respond x).0.status ≢ 500
unfolding IsExpected
answered-status respond (ok a, w) h k = k a
answered-status {A} {B} {W} respond (err e, w) h k =
    service_error-status B e (expected_error A W e w h)

email_of-status :
    (B : Type 0) (parse_email : Text → Result InvalidEmail Text) (value : Option Text)
    (e : EmailReservationsError)
    → email_of parse_email invalid_request value ≡ err e
    → (into_response {A = B} e).status ≢ 500
unfolding into_response
email_of-status B parse_email value e h q = ground arith

verification_of-status :
    (B : Type 0) (parse_email : Text → Result InvalidEmail Text) (parse_id : Text → Option ℕ)
    (path : Option Text) (payload : Option VerifyEmailRequest) (e : EmailReservationsError)
    → verification_of parse_email parse_id path payload ≡ err e
    → (into_response {A = B} e).status ≢ 500
unfolding into_response
verification_of-status B parse_email parse_id path payload e h q = ground arith

submit_rejects :
    (B : Type 0) (s : EmailReservation) (email : Text) (id : ℕ) (digest : Text)
    (profile : RegistrationProfile) (e : EmailReservationError)
    → Reservation.execute s (submit_registration_profile email id digest profile) ≡ rejects e
    → (Accounts.into_response {A = B} (from_submission (rejected e))).status ≢ 500
unfolding Reservation.execute from_submission Accounts.into_response
submit_rejects B s email id digest profile e h q = ground arith

submission_of-status :
    (B : Type 0) (parse_email : Text → Result InvalidEmail Text)
    (parse_id parse_date : Text → Option ℕ) (payload : Option SubmitProfileRequest)
    (e : UserAccountsError)
    → submission_of parse_email parse_id parse_date payload ≡ err e
    → (Accounts.into_response {A = B} e).status ≢ 500
unfolding Accounts.into_response
submission_of-status B parse_email parse_id parse_date payload e h q = ground arith

submission-status :
    {B W : Type 0} (respond : AcceptedSubmission → Response B) (a : AcceptedSubmission)
    (x : Answer EmailReservationError × W)
    → ((e : EmailReservationError)
        → x.0 ≡ err (domain e)
        → (Accounts.into_response {A = B} (from_submission (rejected e))).status ≢ 500)
    → (respond a).status ≢ 500
    → (answered Accounts.into_response from_submission respond (submission_answer a x)).0.status
      ≢ 500
unfolding from_submission Accounts.into_response
submission-status respond a (ok u, w) h k = k
submission-status respond a (err (domain e), w) h k = h e refl
submission-status respond a (err Gateway.conflict, w) h k = λ q. ground arith
submission-status respond a (err Gateway.unavailable, w) h k = λ q. ground arith

with_task-status :
    {V B W : Type 0} (respond : AcceptedSubmission → Response B)
    (x : Result TaskValidationError (NewTask V))
    (k : NewTask V → Result SubmissionError AcceptedSubmission × W) (w : W)
    → ((task : NewTask V)
        → (answered Accounts.into_response from_submission respond (k task)).0.status ≢ 500)
    → (answered Accounts.into_response from_submission respond
        (Registration.with_task Registration.unavailable x k w)).0.status
      ≢ 500
unfolding from_submission Accounts.into_response
with_task-status respond (ok task) k w h = h task
with_task-status respond (err e) k w h = λ q. ground arith

module _ {V W : Type 0} (json : Json V) (gateway : EmailReservationGateway V W)
    (rejects_as : RejectsAsReservation gateway)
    (parse_email : Text → Result InvalidEmail Text) where
  -- Over a gateway whose domain rejections are the aggregate's, and with a generated code of seven
  -- digits, POST /email-reservations answers no request with the status 500, in any state of the world.
  pub reserve-status :
      (to_value : SendVerificationCodeTaskV1 → Option V) (task_id account_id code : ℕ)
      (payload : Option Text) (w : W)
      → is_code code ≡ true
      → (reserve parse_email
          (Service.reserve json to_value gateway task_id account_id code)
          payload
          w).0.status
        ≢ 500
  unfolding reserve
  reserve-status to_value task_id account_id code payload w c =
      served-status into_response from_service _ (email_of parse_email invalid_request payload) _ w
        (email_of-status _ parse_email payload)
        λ email.
          answered-status _ _
            (reserve-IsExpected json to_value gateway rejects_as task_id account_id code email w c)
            (λ a q. ground arith)

  -- Over a gateway whose domain rejections are the aggregate's, and with a generated code of seven
  -- digits, POST /email-reservations/{email}/verification-codes answers no request with the status
  -- 500, in any state of the world.
  pub request_code-status :
      (to_value : SendVerificationCodeTaskV1 → Option V) (task_id account_id code : ℕ)
      (path : Option Text) (w : W)
      → is_code code ≡ true
      → (request_code parse_email
          (Service.request_new_verification_code json to_value gateway task_id account_id code)
          path
          w).0.status
        ≢ 500
  unfolding request_code
  request_code-status to_value task_id account_id code path w c =
      served-status into_response from_service _ (email_of parse_email invalid_request path) _ w
        (email_of-status _ parse_email path)
        λ email.
          answered-status _ _
            (request-IsExpected json to_value gateway rejects_as task_id account_id code email w c)
            (λ a q. ground arith)

  -- Over a gateway whose domain rejections are the aggregate's, POST /email-reservations/{email}/verify
  -- answers no request, whatever its code, with the status 500, in any state of the world.
  pub verify-status :
      (to_value : SendVerificationCodeTaskV1 → Option V) (digest : Text → Text) (token : Text)
      (parse_id : Text → Option ℕ) (path : Option Text) (payload : Option VerifyEmailRequest)
      (w : W)
      → (verify parse_email parse_id
          (Service.confirm_email json to_value gateway digest token)
          path
          payload
          w).0.status
        ≢ 500
  unfolding verify
  verify-status to_value digest token parse_id path payload w =
      served-status into_response from_service _ (verification_of parse_email parse_id path payload)
        _ w (verification_of-status _ parse_email parse_id path payload)
        λ (email, account_id, code).
          answered-status _ _
            (confirm_email-IsExpected json to_value gateway rejects_as digest token email account_id
              code w)
            (λ a q. ground arith)

  -- Over a gateway whose domain rejections are the aggregate's, POST /user-accounts answers no
  -- request with the status 500, in any state of the world.
  pub submit_profile-status :
      (account_gateway : UserAccountGateway V W) (to_value : CreateAccountTaskV1 → Option V)
      (digest encode : Text → Text) (id_text : ℕ → Text) (parse_id parse_date : Text → Option ℕ)
      (now task_id : ℕ) (payload : Option SubmitProfileRequest) (w : W)
      → (submit_profile parse_email parse_id parse_date encode id_text
          (Registration.submit_profile json gateway account_gateway to_value digest now task_id)
          payload
          w).0.status
        ≢ 500
  unfolding submit_profile Registration.submit_profile
  submit_profile-status account_gateway to_value digest encode id_text parse_id parse_date now
        task_id payload w =
      served-status Accounts.into_response from_submission _
        (submission_of parse_email parse_id parse_date payload) _ w
        (submission_of-status _ parse_email parse_id parse_date payload)
        λ s.
          with_task-status _
            (new_task json (Registration.create_account_payload to_value) task_id _) _ w
            λ task.
              submission-status _ _ (gateway.execute_with_outbox _ (task ∷ []) w)
                (λ e q.
                  let (state, h) = rejects_as.of_outbox _ (task ∷ []) w e q in
                  submit_rejects _ state _ _ _ _ e h)
                (λ q. ground arith)
