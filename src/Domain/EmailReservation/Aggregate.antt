-- ===== src/Domain/EmailReservation/Aggregate.antt =====
-- `impl Aggregate for EmailReservation`
-- (account-managements-service/src/domain/email_reservation/aggregate.rs). The framework's `EventSink`
-- applies the written event to the aggregate before it is committed, so `execute` returns the event
-- and the state after it. `apply` is `none` where the source panics.
use account_management_servi.Base.{ℕ, Option, none, some, Outcome, returns, panics, and_then}
use account_management_servi.Domain.EmailReservation.{
  ReservationPhase, awaiting_code, awaiting_profile, creating_account, account_created,
  EmailReservation, EmailReservationCommand, reserve_email, request_verification_code, verify_email,
  submit_registration_profile, record_account_created, EmailReservationEvent, email_reserved,
  verification_code_requested, verification_restarted, email_verified,
  registration_profile_accepted, account_creation_completed, EmailReservationError,
}
use account_management_servi.Domain.EmailReservation.Handlers.{
  Handled, handle_reserve, handle_request_verification_code, handle_verify, handle_submit_profile,
  handle_record_account_created,
}

unfoldable pub handle : EmailReservation → EmailReservationCommand → Handled
unfolding handle_reserve handle_request_verification_code handle_verify handle_submit_profile
    handle_record_account_created
handle s (reserve_email email id code) = handle_reserve s email id code
handle s (request_verification_code email id code) =
    handle_request_verification_code s email id code
handle s (verify_email email id code digest) = handle_verify s email id code digest
handle s (submit_registration_profile email id digest profile) =
    handle_submit_profile s email id digest profile
handle s (record_account_created email id profile created_at) =
    handle_record_account_created s email id profile created_at

-- Completion keeps the token and the profile of the phase that it finds.
abbrev pub complete : ReservationPhase → ℕ → ℕ → Option ReservationPhase
complete (creating_account _ consumed accepted) id created_at =
    some (account_created id consumed accepted created_at)
complete _ id created_at = none

abbrev pub next_phase : ReservationPhase → EmailReservationEvent → Option ReservationPhase
next_phase p (email_reserved _ id code) = some (awaiting_code id code)
next_phase p (verification_code_requested _ id code) = some (awaiting_code id code)
next_phase p (verification_restarted _ id code) = some (awaiting_code id code)
next_phase p (email_verified _ id digest) = some (awaiting_profile id digest)
next_phase p (registration_profile_accepted _ id digest profile) =
    some (creating_account id digest profile)
next_phase p (account_creation_completed _ id created_at) = complete p id created_at

unfoldable pub apply : EmailReservation → EmailReservationEvent → Option EmailReservation
apply s e = elim (next_phase s.phase e) [ none ↦ none | some p ↦ some (record s { phase = p }) ]

-- A command whose event the sink has written.
abbrev pub write :
    EmailReservation
    → EmailReservationEvent
    → Outcome EmailReservationError (EmailReservation × EmailReservationEvent)
unfolding apply
write s e = elim (apply s e) [ none ↦ panics | some s' ↦ returns (s', e) ]

unfoldable pub execute :
    EmailReservation
    → EmailReservationCommand
    → Outcome EmailReservationError (EmailReservation × EmailReservationEvent)
unfolding handle apply
execute s c = and_then (handle s c) (write s)
