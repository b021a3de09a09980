-- ===== src/Tests/Reservations.antt =====
-- The registration of a sample account, step by step, and the theorems on reservations at it.
use account_management_servi.Base.{
  ◌≡◌, refl, ◌≢◌, ◌↔◌, inr, none, some, [], ◌∷◌, Text, ap, text_eq, trim, trim_start, trim_end,
  is_whitespace, returns, rejects, panics, if◌then◌else◌,
}
use account_management_servi.Domain.EmailReservation.{
  EmailReservation, EmailReservationEvent, default, absent, awaiting_code, awaiting_profile,
  creating_account, account_created, email_verified, submit_registration_profile,
  request_verification_code, profile_already_submitted, account_creation_completed,
  verification_restarted, registration_profile_accepted,
}
use account_management_servi.Domain.EmailReservation.Aggregate.{execute, apply}
use account_management_servi.Domain.EmailReservation.Lifecycle.{Step, in_phase, execute_iff_Step}
use account_management_servi.Domain.EmailReservation.History.{
  run, advance, replay, execute-ne-panics, replay-run-default, Follows, IsWellFormed,
  run-IsWellFormed-default, created_was_verified,
}
use account_management_servi.Domain.EmailReservation.Repeats.{
  submitted_once, completed_is_final, apply-apply, is_completion,
}
use account_management_servi.Tests.Samples.{
  email, digest, profile, reserving, submitting, recording, registration,
}
use account_management_servi.Domain.Profile
use account_management_servi.Domain.Profile.{profile_eq}
use account_management_servi.Domain.EmailReservation.Handlers.{ensure_code_format}
use mathlib.Core.List.{Memᴰ}

abbrev verified : EmailReservation
verified = record { phase = awaiting_profile 7 digest }

abbrev submitted : EmailReservation
submitted = record { phase = creating_account 7 digest profile }

abbrev completed : EmailReservation
completed = record { phase = account_created 7 digest profile 900 }

registration_completes : (run default registration).0 ≡ completed
unfolding run advance execute apply text_eq trim trim_start trim_end is_whitespace profile_eq
    ensure_code_format Profile.new
registration_completes = refl

execute_iff_Step_example :
    ((e : EmailReservationEvent) × (execute default reserving
        ≡ returns (in_phase (awaiting_code 7 1_234_567), e)))
    ↔ Step absent reserving (awaiting_code 7 1_234_567)
execute_iff_Step_example = execute_iff_Step default reserving (awaiting_code 7 1_234_567)

execute-ne-panics_example : execute completed recording ≢ panics
execute-ne-panics_example = execute-ne-panics completed recording

replay-run-default_example :
    (replay default (run default registration).1 ≡ some (run default registration).0)
    × Follows absent registration (run default registration).0.phase
replay-run-default_example = replay-run-default registration

run-IsWellFormed-default_example : IsWellFormed (run default registration).0.phase
run-IsWellFormed-default_example = run-IsWellFormed-default registration

created_was_verified_example :
    (e : Text) × Memᴰ (email_verified e 7 digest) (run default registration).1
created_was_verified_example =
    created_was_verified registration 7 digest profile 900
      (inr (ap (λ (s : EmailReservation). s.phase) registration_completes))

submits :
    execute verified submitting
    ≡ returns (submitted, registration_profile_accepted email 7 digest profile)
unfolding execute apply text_eq trim trim_start trim_end is_whitespace profile_eq ensure_code_format
    Profile.new
submits = refl

submitted_once_example :
    execute (run submitted (recording ∷ [])).0 (submit_registration_profile email 7 digest profile)
    ≡ rejects profile_already_submitted
submitted_once_example =
    submitted_once verified submitted (registration_profile_accepted email 7 digest profile) email
      email 7 digest profile profile (recording ∷ []) submits

completed_is_final_example : run completed (submitting ∷ recording ∷ []) ≡ (completed, [])
completed_is_final_example =
    completed_is_final completed 7 digest profile 900 (submitting ∷ recording ∷ []) refl

records : execute submitted recording ≡ returns (completed, account_creation_completed email 7 900)
unfolding execute apply text_eq profile_eq
records = refl

-- A new code for the account ID 8, after the sample's verification.
reissues :
    execute verified (request_verification_code email 8 7_654_321)
    ≡ returns
        (record { phase = awaiting_code 8 7_654_321 }, verification_restarted email 8 7_654_321)
unfolding execute apply ensure_code_format
reissues = refl

completes : apply submitted (account_creation_completed email 7 900) ≡ some completed
unfolding apply
completes = refl

apply-apply_example :
    apply completed (account_creation_completed email 7 900)
    ≡ (if is_completion (account_creation_completed email 7 900) then none else some completed)
apply-apply_example =
    apply-apply submitted completed (account_creation_completed email 7 900) completes
