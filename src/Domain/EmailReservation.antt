-- ===== src/Domain/EmailReservation.antt =====
-- The state, commands, events and errors of the `EmailReservation` aggregate
-- (account-managements-service/src/domain/email_reservation.rs, commands.rs, events.rs, errors.rs).
-- A `UserAccountId` is its 128-bit UUID as a number, a verification code a `u32`, an email the text of
-- the normalised address.
pub mod Handlers
pub mod Aggregate
pub mod Lifecycle
pub mod History
pub mod Repeats
use account_management_servi.Base.{ℕ, Bool, true, false, not, Option, none, some, Text, text}
use account_management_servi.Domain.Profile.{RegistrationProfile}

pub data ReservationPhase : Type 0 where
  absent : ReservationPhase
  awaiting_code : (account_id verification_code : ℕ) → ReservationPhase
  awaiting_profile : (account_id : ℕ) (token_digest : Text) → ReservationPhase
  creating_account :
      (account_id : ℕ) (consumed_token_digest : Text) (accepted_profile : RegistrationProfile)
      → ReservationPhase
  account_created :
      (account_id : ℕ) (consumed_token_digest : Text) (accepted_profile : RegistrationProfile)
      (created_at : ℕ)
      → ReservationPhase

pub record EmailReservation : Type 0 where
  pub phase : ReservationPhase

-- `EmailReservation::default()`.
abbrev pub default : EmailReservation
default = record { phase = absent }

abbrev pub phase_account_id : ReservationPhase → Option ℕ
phase_account_id absent = none
phase_account_id (awaiting_code i c) = some i
phase_account_id (awaiting_profile i t) = some i
phase_account_id (creating_account i t p) = some i
phase_account_id (account_created i t p a) = some i

abbrev pub account_id : EmailReservation → Option ℕ
account_id s = phase_account_id s.phase

abbrev pub is_absent : ReservationPhase → Bool
is_absent absent = true
is_absent _ = false

abbrev pub is_reserved : EmailReservation → Bool
is_reserved s = not (is_absent s.phase)

pub data EmailReservationCommand : Type 0 where
  reserve_email : (email : Text) (account_id verification_code : ℕ) → EmailReservationCommand
  request_verification_code :
      (email : Text) (account_id verification_code : ℕ) → EmailReservationCommand
  verify_email :
      (email : Text) (account_id code : ℕ) (token_digest : Text) → EmailReservationCommand
  submit_registration_profile :
      (email : Text) (account_id : ℕ) (token_digest : Text) (profile : RegistrationProfile)
      → EmailReservationCommand
  record_account_created :
      (email : Text) (account_id : ℕ) (profile : RegistrationProfile) (created_at : ℕ)
      → EmailReservationCommand

pub data EmailReservationEvent : Type 0 where
  email_reserved : (email : Text) (account_id verification_code : ℕ) → EmailReservationEvent
  verification_code_requested :
      (email : Text) (account_id verification_code : ℕ) → EmailReservationEvent
  verification_restarted : (email : Text) (account_id verification_code : ℕ) → EmailReservationEvent
  email_verified : (email : Text) (account_id : ℕ) (token_digest : Text) → EmailReservationEvent
  registration_profile_accepted :
      (email : Text) (account_id : ℕ) (consumed_token_digest : Text) (profile : RegistrationProfile)
      → EmailReservationEvent
  account_creation_completed : (email : Text) (account_id created_at : ℕ) → EmailReservationEvent

unfoldable pub event_type : EmailReservationEvent → Text
event_type (email_reserved e i c) = text "email_reserved"
event_type (verification_code_requested e i c) = text "verification_code_requested"
event_type (verification_restarted e i c) = text "verification_restarted"
event_type (email_verified e i t) = text "email_verified"
event_type (registration_profile_accepted e i t p) = text "registration_profile_accepted"
event_type (account_creation_completed e i a) = text "account_creation_completed"

unfoldable pub event_version : EmailReservationEvent → Text
event_version (email_reserved e i c) = text "1"
event_version (verification_code_requested e i c) = text "1"
event_version (email_verified e i t) = text "1"
event_version (verification_restarted e i c) = text "1"
event_version (registration_profile_accepted e i t p) = text "1"
event_version (account_creation_completed e i a) = text "1"

pub data EmailReservationError : Type 0 where
  already_reserved not_reserved not_current_account_id already_verified : EmailReservationError
  invalid_verification_code invalid_verification_code_format : EmailReservationError
  account_id_unchanged not_awaiting_profile invalid_account_creation_token : EmailReservationError
  profile_already_submitted empty_first_name empty_last_name : EmailReservationError
  future_date_of_birth account_creation_started account_creation_mismatch : EmailReservationError
  account_creation_already_completed : EmailReservationError
