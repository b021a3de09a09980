-- ===== src/System/Steps.antt =====
-- What the use cases do with the answer of their command, and the profile that a submission leaves
-- (account-managements-service/src/application).
use account_management_servi.Base.{ℕ, ◌≡◌, refl, Text, sym, ap, arith, ok, err, Result, trim-trim}
use mathlib.Core.Path.{subst}
use account_management_servi.Task.Data.{NewTask, TaskValidationError}
use account_management_servi.Domain.Profile
use account_management_servi.Domain.Profile.{RegistrationProfile}
use account_management_servi.Domain.EmailReservation.{
  ReservationPhase, EmailReservation, EmailReservationError, submit_registration_profile,
}
use account_management_servi.Domain.EmailReservation.Lifecycle.{
  Step-execute, execute-Step, normalised, reserves, reissues, restarts, verifies, accepts,
  completes,
}
use account_management_servi.Domain.EmailReservation.Lifecycle as Lifecycle
use account_management_servi.Domain.UserAccount.{UserAccountError}
use account_management_servi.Command.{CommandGatewayError}
use account_management_servi.Application.Gateways.{Answer}
use account_management_servi.Application.Reservations as Reservations
use account_management_servi.Application.Reservations.{
  SendVerificationCodeTaskV1, EmailReservationServiceError, send_verification_code, reserve,
  request_new_verification_code, confirm_email, code_task, code_payload, unavailable_unless,
  answer_with,
}
use account_management_servi.Application.Registration as Registration
use account_management_servi.Application.Registration.{
  CreateAccountTaskV1, RecordAccountCreatedTaskV1, ProfileSubmission, AcceptedSubmission,
  ContinuationError, SubmissionError, submission_answer, creation_answer, record_answer,
  create_account_payload, record_account_created_payload, submit_profile, create_account,
  record_created, date_of,
}
use account_management_servi.System.{AcceptsReservation}
use account_management_servi.System.Sound.{HasAccepted}

-- The world that each kind of answer passes on.
pub answer_with-world :
    {A W : Type 0} (f : CommandGatewayError EmailReservationError → EmailReservationServiceError)
    (a : A) (x : Answer EmailReservationError × W)
    → (answer_with f a x).1 ≡ x.1
answer_with-world f a (ok u, w) = refl
answer_with-world f a (err e, w) = refl

pub submission_answer-world :
    {W : Type 0} (a : AcceptedSubmission) (x : Answer EmailReservationError × W)
    → (submission_answer a x).1 ≡ x.1
submission_answer-world a (ok u, w) = refl
submission_answer-world a (err (CommandGatewayError.domain e), w) = refl
submission_answer-world a (err CommandGatewayError.conflict, w) = refl
submission_answer-world a (err CommandGatewayError.unavailable, w) = refl

pub creation_answer-world :
    {W : Type 0} (x : Answer UserAccountError × W) → (creation_answer x).1 ≡ x.1
creation_answer-world (ok u, w) = refl
creation_answer-world (err (CommandGatewayError.domain e), w) = ground arith
creation_answer-world (err CommandGatewayError.conflict, w) = refl
creation_answer-world (err CommandGatewayError.unavailable, w) = refl

pub record_answer-world :
    {W : Type 0} (x : Answer EmailReservationError × W) → (record_answer x).1 ≡ x.1
record_answer-world (ok u, w) = refl
record_answer-world (err (CommandGatewayError.domain e), w) = ground arith
record_answer-world (err CommandGatewayError.conflict, w) = refl
record_answer-world (err CommandGatewayError.unavailable, w) = refl

-- A use case that builds its task first: what holds of the world before and after its command.
pub with_task_keeps :
    {V W E A : Type 0} (P : W → Type 0) (e : E) (r : Result TaskValidationError (NewTask V))
    (k : NewTask V → Result E A × W) (w : W)
    → P w
    → ((task : NewTask V) → r ≡ ok task → P (k task).1)
    → P (Registration.with_task e r k w).1
with_task_keeps P e (ok task) k w h g = g task refl
with_task_keeps P e (err x) k w h g = h

pub code_keeps :
    {V W A : Type 0} (P : W → Type 0) (r : Result TaskValidationError (NewTask V))
    (k : NewTask V → Result EmailReservationServiceError A × W) (w : W)
    → P w
    → ((task : NewTask V) → r ≡ ok task → P (k task).1)
    → P (Reservations.with_task (unavailable_unless r) k w).1
code_keeps P (ok task) k w h g = g task refl
code_keeps P (err x) k w h g = h

new-new :
    (first last : Text) (born validated : ℕ)
    → normalised (Profile.new first last born validated) ≡ Profile.new first last born validated
unfolding Profile.new
new-new first last born validated = ground (arith, trim-trim first, trim-trim last)

submitted_profile :
    (p q : ReservationPhase) (email : Text) (id : ℕ) (digest : Text) (profile : RegistrationProfile)
    → Lifecycle.Step p (submit_registration_profile email id digest profile) q
    → HasAccepted q id (normalised profile)
submitted_profile p q email id digest profile (reserves em i code e k d r) =
    absurd (ground (arith, k))
submitted_profile p q email id digest profile (reissues em i code x y e k n d r) =
    absurd (ground (arith, k))
submitted_profile p q email id digest profile (restarts em i code x y e k n d r) =
    absurd (ground (arith, k))
submitted_profile p q email id digest profile (verifies em i code d e k r) =
    absurd (ground (arith, k))
submitted_profile p q email id digest profile (accepts em i d accepted e k v r) =
    subst (λ x. HasAccepted x id (normalised profile)) (sym r)
      (ground (arith, k), ap normalised (cc k))
submitted_profile p q email id digest profile (completes em i d accepted at e k r) =
    absurd (ground (arith, k))

-- An accepted submission leaves the submitted profile, whose names the service has trimmed before.
pub accepted_profile :
    (s s' : EmailReservation) (email : Text) (id : ℕ) (digest first last : Text)
    (born validated : ℕ)
    → AcceptsReservation s
        (submit_registration_profile email id digest (Profile.new first last born validated))
        s'
    → HasAccepted s'.phase id (Profile.new first last born validated)
accepted_profile s s' email id digest first last born validated (e, k) =
    subst (HasAccepted s'.phase id) (new-new first last born validated)
      (submitted_profile s.phase s'.phase email id digest _ (execute-Step s s' _ e k))
