-- ===== src/System/UseCases.antt =====
-- The use cases over a sound store (account-managements-service/src/application).
use account_management_servi.Base.{
  ℕ, ◌≡◌, refl, inl, inr, some, [], ◌∷◌, Text, In, sym, ap, ◌∙◌, arith, ok, Bool-cases,
}
use mathlib.Core.Path.{subst}
use account_management_servi.Task.Data.{NewTask, new_task, new_format}
use account_management_servi.Domain.Profile
use account_management_servi.Domain.Profile.{RegistrationProfile}
use account_management_servi.Domain.EmailReservation.{
  reserve_email, request_verification_code, verify_email, submit_registration_profile,
}
use account_management_servi.Domain.EmailReservation.Handlers.{is_code}
use account_management_servi.Application.Gateways.{aggregate_id}
use account_management_servi.Application.Reservations.{
  send_verification_code, reserve, request_new_verification_code, confirm_email, code_task,
  code_payload,
}
use account_management_servi.Application.Registration.{
  CreateAccountTaskV1, ProfileSubmission, create_account_payload, submit_profile, date_of,
}
use account_management_servi.Application.Tasks.{Services}
use account_management_servi.Application.Tasks.Wiring.{send_format, create_format}
use account_management_servi.Application.Tasks.Published.{ReadsBack, new_task-eq_ok, built}
use account_management_servi.System.{Store, RunsOn}
use account_management_servi.System.Sound.{HasAccepted, IsTaskSound, IsSound}
use account_management_servi.System.Commands.{ran-IsSound}
use account_management_servi.System.Steps.{
  answer_with-world, submission_answer-world, with_task_keeps, code_keeps, accepted_profile,
}

module _ {V W : Type 0} (store : Store V W) (uuid : ℕ → Text) (services : Services V W)
    (runs : RunsOn store uuid services) (reads_back : ReadsBack services) where
  abbrev Sound : W → Type 0
  Sound = IsSound store uuid services

  -- A task of another format says nothing of the store.
  code-IsTaskSound :
      (task_id account_id code : ℕ) (email : Text) (built_task : NewTask V) (w : W)
      → code_payload services.json services.write_code task_id email account_id code ≡ ok built_task
      → (task : NewTask V) → In task (built_task ∷ [])
      → IsTaskSound store uuid services w task
  unfolding new_format
  code-IsTaskSound task_id account_id code email built_task w h task (inl e) =
      let (v, q, b) =
        new_task-eq_ok services.json (send_verification_code services.write_code) send_format
          task_id _ built_task refl h in
      let f : task.format ≡ send_format = ap (λ (x : NewTask V). x.format) (e ∙ b) in
      record {
        creates = λ t g r. absurd (ground (arith, f, g));
        records = λ t g r. absurd (ground (arith, f, g));
      }
  code-IsTaskSound task_id account_id code email built_task w h task (inr m) = absurd m

  pub reserve-IsSound :
      (task_id account_id code : ℕ) (email : Text) (w : W)
      → Sound w
      → Sound
          (reserve services.json services.write_code services.email_gateway task_id account_id code
            email w).1
  unfolding reserve code_task
  reserve-IsSound task_id account_id code email w h =
      code_keeps Sound
        (code_payload services.json services.write_code task_id email account_id code) _ w h
        λ task b. subst Sound (sym (answer_with-world _ _ _)) (
          ran-IsSound store uuid services (reserve_email email account_id code) (task ∷ []) w _
            (runs.execute_with_outbox (reserve_email email account_id code) (task ∷ []) w) tt
            (λ a. code-IsTaskSound task_id account_id code email task _ b) h)

  pub request-IsSound :
      (task_id account_id code : ℕ) (email : Text) (w : W)
      → Sound w
      → Sound
          (request_new_verification_code services.json services.write_code services.email_gateway
            task_id account_id code email w).1
  unfolding request_new_verification_code code_task
  request-IsSound task_id account_id code email w h =
      code_keeps Sound
        (code_payload services.json services.write_code task_id email account_id code) _ w h
        λ task b. subst Sound (sym (answer_with-world _ _ _)) (
          ran-IsSound store uuid services (request_verification_code email account_id code)
            (task ∷ []) w _
            (runs.execute_with_outbox (request_verification_code email account_id code) (task ∷ [])
              w)
            tt (λ a. code-IsTaskSound task_id account_id code email task _ b) h)

  pub confirm-IsSound :
      (digest : Text → Text) (token email : Text) (account_id code : ℕ) (w : W)
      → Sound w
      → Sound
          (confirm_email services.json services.write_code services.email_gateway digest token email
            account_id code w).1
  unfolding confirm_email
  confirm-IsSound digest token email account_id code w h = elim (Bool-cases (is_code code)) [
    | inr wrong ↦ rw wrong h
    | inl right ↦ rw right (
        subst Sound (sym (answer_with-world _ _ _)) (
          ran-IsSound store uuid services (verify_email email account_id code (digest token)) [] w _
            (runs.execute (verify_email email account_id code (digest token)) w) tt
            (λ a task m. absurd m) h))
  ]

  submitted-IsTaskSound :
      (t : CreateAccountTaskV1) (task_id : ℕ) (built_task : NewTask V) (w : W)
      → new_task services.json (create_account_payload services.write_creation) task_id t
        ≡ ok built_task
      → HasAccepted (store.reservation w t.email).phase t.account_id t.profile
      → (task : NewTask V) → In task (built_task ∷ [])
      → IsTaskSound store uuid services w task
  unfolding new_format
  submitted-IsTaskSound t task_id built_task w h accepted task (inl e) =
      let (v, q, b) =
        new_task-eq_ok services.json (create_account_payload services.write_creation) create_format
          task_id t built_task refl h in
      let made : task ≡ built services.json task_id create_format v = e ∙ b in
      let f : task.format ≡ create_format = ap (λ (x : NewTask V). x.format) made in
      let reads : services.read_creation task.payload ≡ some t =
        ap (λ (x : NewTask V). services.read_creation x.payload) made ∙ reads_back.creation t v q in
      record {
        creates = λ t' g r.
            let same : t ≡ t' = cc (reads, r) in
            subst
              (λ (x : CreateAccountTaskV1).
                HasAccepted (store.reservation w x.email).phase x.account_id x.profile)
              same accepted;
        records = λ t' g r. absurd (ground (arith, f, g));
      }
  submitted-IsTaskSound t task_id built_task w h accepted task (inr m) = absurd m

  pub submit-IsSound :
      (digest : Text → Text) (now task_id : ℕ) (s : ProfileSubmission) (w : W)
      → Sound w
      → Sound
          (submit_profile services.json services.email_gateway services.account_gateway
            services.write_creation digest now task_id s w).1
  unfolding submit_profile aggregate_id
  submit-IsSound digest now task_id s w h =
      let profile = Profile.new s.first_name s.last_name s.date_of_birth (date_of now) in
      let t : CreateAccountTaskV1 = record {
        email = s.email;
        account_id = s.account_id;
        profile = profile;
      } in
      let c =
        submit_registration_profile s.email s.account_id (digest s.account_creation_token)
          profile in
      with_task_keeps Sound _
        (new_task services.json (create_account_payload services.write_creation) task_id t) _ w h
        λ task b. subst Sound (sym (submission_answer-world _ _)) (
          ran-IsSound store uuid services c (task ∷ []) w _
            (runs.execute_with_outbox c (task ∷ []) w) tt
            (λ a. submitted-IsTaskSound t task_id task _ b (
              accepted_profile _ _ s.email s.account_id (digest s.account_creation_token)
                s.first_name s.last_name s.date_of_birth (date_of now) a))
            h)
