-- ===== src/Application/Reservations/Expected.antt =====
-- The use cases of a reservation over gateways that reject only what the aggregate rejects
-- (account-managements-service/src/application/email_reservation/use_cases).
use account_management_servi.Base.{
  ℕ, Option, ◌≡◌, refl, Bool, not, if◌then◌else◌, true, false, [], ◌∷◌, Text, Result, ok, err,
  rejects, arith,
}
use account_management_servi.Task.Data.{Json, NewTask, TaskValidationError}
use account_management_servi.Command.{CommandGatewayError, domain, conflict, unavailable}
use account_management_servi.Domain.EmailReservation.{
  EmailReservation, reserve_email, request_verification_code, verify_email, EmailReservationError,
}
use account_management_servi.Domain.EmailReservation.Handlers.{is_code}
use account_management_servi.Domain.EmailReservation.Aggregate as Reservation
use account_management_servi.Application.Gateways.{
  EmailReservationGateway, RejectsAsReservation, Answer,
}
use account_management_servi.Application.Reservations as Service
use account_management_servi.Application.Reservations.{
  EmailReservationServiceError, unexpected_domain_rejection, SendVerificationCodeTaskV1, reserve,
  request_new_verification_code, confirm_email, reserve_error, request_error, confirm_error,
  code_payload, code_task, answer_with, with_task, unavailable_unless,
}

-- The answer is no unexpected rejection.
unfoldable pub IsExpected : {A W : Type 0} → Result EmailReservationServiceError A × W → Type 0
IsExpected (err (unexpected_domain_rejection e), w) = ⊥
IsExpected _ = Unit

abbrev pub IsExpectedError : EmailReservationServiceError → Type 0
IsExpectedError (unexpected_domain_rejection e) = ⊥
IsExpectedError _ = Unit

reserve_rejects :
    (s : EmailReservation) (email : Text) (id code : ℕ) (e : EmailReservationError)
    → is_code code ≡ true
    → Reservation.execute s (reserve_email email id code) ≡ rejects e
    → IsExpectedError (reserve_error (domain e))
unfolding Reservation.execute reserve_error
reserve_rejects s email id code e c h = ground arith

request_rejects :
    (s : EmailReservation) (email : Text) (id code : ℕ) (e : EmailReservationError)
    → is_code code ≡ true
    → Reservation.execute s (request_verification_code email id code) ≡ rejects e
    → IsExpectedError (request_error (domain e))
unfolding Reservation.execute request_error
request_rejects s email id code e c h = ground arith

confirm_rejects :
    (s : EmailReservation) (email : Text) (id code : ℕ) (digest : Text) (e : EmailReservationError)
    → Reservation.execute s (verify_email email id code digest) ≡ rejects e
    → IsExpectedError (confirm_error (domain e))
unfolding Reservation.execute confirm_error
confirm_rejects s email id code digest e h = ground arith

error-IsExpected :
    {A W : Type 0} (e : EmailReservationServiceError)
    (x : Result EmailReservationServiceError A × W) (w : W)
    → x ≡ (err e, w)
    → IsExpectedError e
    → IsExpected x
unfolding IsExpected
error-IsExpected e x w p h = ground (arith, p, h)

answer_with-IsExpected :
    {A W : Type 0}
    (mapping : CommandGatewayError EmailReservationError → EmailReservationServiceError) (a : A)
    (x : Answer EmailReservationError × W)
    → ((e : EmailReservationError) → x.0 ≡ err (domain e) → IsExpectedError (mapping (domain e)))
    → IsExpectedError (mapping conflict)
    → IsExpectedError (mapping unavailable)
    → IsExpected (answer_with mapping a x)
unfolding IsExpected
answer_with-IsExpected mapping a (ok u, w) h c u' = tt
answer_with-IsExpected {A} mapping a (err (domain e), w) h c u =
    error-IsExpected {A = A} (mapping (domain e)) _ w refl (h e refl)
answer_with-IsExpected {A} mapping a (err conflict, w) h c u =
    error-IsExpected {A = A} (mapping conflict) _ w refl c
answer_with-IsExpected {A} mapping a (err unavailable, w) h c u =
    error-IsExpected {A = A} (mapping unavailable) _ w refl u

checked-IsExpected :
    {W A : Type 0} (b : Bool) (x : Result EmailReservationServiceError A × W) (w : W)
    → IsExpected x
    → IsExpected (if not b then (err Service.invalid_verification_code, w) else x)
unfolding IsExpected
checked-IsExpected true x w h = h
checked-IsExpected false x w h = tt

with_task-IsExpected :
    {V W A : Type 0} (x : Result TaskValidationError (NewTask V))
    (k : NewTask V → Result EmailReservationServiceError A × W) (w : W)
    → ((task : NewTask V) → IsExpected (k task))
    → IsExpected (with_task (unavailable_unless x) k w)
unfolding IsExpected
with_task-IsExpected (ok task) k w h = h task
with_task-IsExpected (err e) k w h = tt

module _ {V W : Type 0} (json : Json V) (to_value : SendVerificationCodeTaskV1 → Option V)
    (gateway : EmailReservationGateway V W) (rejects_as : RejectsAsReservation gateway) where
  -- Over a gateway whose domain rejections are the aggregate's, reserving an email with a code of
  -- seven digits is never answered with an unexpected domain rejection, in any state of the world.
  pub reserve-IsExpected :
      (task_id account_id code : ℕ) (email : Text) (w : W)
      → is_code code ≡ true
      → IsExpected (reserve json to_value gateway task_id account_id code email w)
  unfolding reserve code_task
  reserve-IsExpected task_id account_id code email w c =
      with_task-IsExpected (code_payload json to_value task_id email account_id code) _ w λ task.
        answer_with-IsExpected reserve_error (record { email = email; account_id = account_id })
          (gateway.execute_with_outbox (reserve_email email account_id code) (task ∷ []) w)
          (λ e q.
            let (s, h) = rejects_as.of_outbox _ (task ∷ []) w e q in
            reserve_rejects s email account_id code e c h)
          tt tt

  -- Over a gateway whose domain rejections are the aggregate's, requesting a new code of seven
  -- digits is never answered with an unexpected domain rejection, in any state of the world.
  pub request-IsExpected :
      (task_id account_id code : ℕ) (email : Text) (w : W)
      → is_code code ≡ true
      → IsExpected
          (request_new_verification_code json to_value gateway task_id account_id code email w)
  unfolding request_new_verification_code code_task
  request-IsExpected task_id account_id code email w c =
      with_task-IsExpected (code_payload json to_value task_id email account_id code) _ w λ task.
        answer_with-IsExpected request_error tt
          (gateway.execute_with_outbox (request_verification_code email account_id code) (task ∷ [])
            w)
          (λ e q.
            let (s, h) = rejects_as.of_outbox _ (task ∷ []) w e q in
            request_rejects s email account_id code e c h)
          tt tt

  -- Over a gateway whose domain rejections are the aggregate's, confirming an email, with any code,
  -- is never answered with an unexpected domain rejection, in any state of the world.
  pub confirm_email-IsExpected :
      (digest : Text → Text) (token email : Text) (account_id code : ℕ) (w : W)
      → IsExpected (confirm_email json to_value gateway digest token email account_id code w)
  unfolding confirm_email
  confirm_email-IsExpected digest token email account_id code w =
      checked-IsExpected (is_code code) _ w (
        answer_with-IsExpected confirm_error _ _
          (λ e q.
            let (s, h) = rejects_as.of_execute _ w e q in
            confirm_rejects s email account_id code (digest token) e h)
          tt tt)
