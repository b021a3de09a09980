-- ===== src/Domain/EmailReservation/Handlers.antt =====
-- The command handlers (account-managements-service/src/domain/email_reservation/commands.rs). Each
-- ends in at most one `sink.write`, so a handler returns the event that it writes; `panics` is its
-- `unreachable!`.
use account_management_servi.Base.{
  ℕ, Bool, ◌&&◌, Text, text_eq, ltb, leb, ◌==◌, if◌then◌else◌, is_empty, Result, ok, err, ok_or,
  Outcome, returns, rejects, panics, or_return,
}
use account_management_servi.Domain.Profile
use account_management_servi.Domain.Profile.{RegistrationProfile, profile_eq}
use account_management_servi.Domain.EmailReservation.{
  ReservationPhase, absent, awaiting_code, awaiting_profile, creating_account, account_created,
  EmailReservation, account_id, is_reserved, EmailReservationEvent, email_reserved,
  verification_code_requested, verification_restarted, email_verified,
  registration_profile_accepted, account_creation_completed, EmailReservationError,
  already_reserved, not_reserved, not_current_account_id, already_verified,
  invalid_verification_code, invalid_verification_code_format, account_id_unchanged,
  not_awaiting_profile, invalid_account_creation_token, profile_already_submitted, empty_first_name,
  empty_last_name, future_date_of_birth, account_creation_started, account_creation_mismatch,
  account_creation_already_completed,
}

-- `(1_000_000..=9_999_999).contains(&code)`.
abbrev pub is_code : ℕ → Bool
is_code code = leb 1_000_000 code && leb code 9_999_999

unfoldable pub ensure_code_format : ℕ → Result EmailReservationError (Unit {0})
ensure_code_format code = if is_code code then ok tt else err invalid_verification_code_format

abbrev pub Handled : Type 0
Handled = Outcome EmailReservationError EmailReservationEvent

unfoldable pub handle_reserve : EmailReservation → Text → ℕ → ℕ → Handled
unfolding ensure_code_format
handle_reserve s email id code =
    if is_reserved s
    then rejects already_reserved
    else or_return (ensure_code_format code) (λ _. returns (email_reserved email id code))

-- The event of a new code, by the phase that asks for it.
abbrev pub code_event : ReservationPhase → Text → ℕ → ℕ → Handled
code_event absent email id code = panics
code_event (awaiting_code _ _) email id code = returns (verification_code_requested email id code)
code_event (awaiting_profile _ _) email id code = returns (verification_restarted email id code)
code_event (creating_account _ _ _) email id code = rejects account_creation_started
code_event (account_created _ _ _ _) email id code = rejects account_creation_started

unfoldable pub handle_request_verification_code : EmailReservation → Text → ℕ → ℕ → Handled
unfolding ensure_code_format
handle_request_verification_code s email id code =
    or_return (ok_or (account_id s) not_reserved) λ current.
      if current == id
      then rejects account_id_unchanged
      else or_return (ensure_code_format code) (λ _. code_event s.phase email id code)

abbrev pub check_code : ReservationPhase → ℕ → ℕ → Result EmailReservationError (Unit {0})
check_code absent id code = err not_reserved
check_code (awaiting_code current expected) id code =
    if current == id
    then (if expected == code then ok tt else err invalid_verification_code)
    else err not_current_account_id
check_code (awaiting_profile current _) id code =
    err (if current == id then already_verified else not_current_account_id)
check_code (creating_account _ _ _) id code = err account_creation_started
check_code (account_created _ _ _ _) id code = err account_creation_started

unfoldable pub handle_verify : EmailReservation → Text → ℕ → ℕ → Text → Handled
handle_verify s email id code token_digest =
    or_return (check_code s.phase id code) (λ _. returns (email_verified email id token_digest))

-- A phase after the token was consumed.
abbrev pub check_consumed : ℕ → Text → ℕ → Text → Result EmailReservationError (Unit {0})
check_consumed current consumed id token_digest =
    if current == id
    then (if text_eq consumed token_digest
        then err profile_already_submitted
        else err invalid_account_creation_token)
    else err not_current_account_id

abbrev pub check_token : ReservationPhase → ℕ → Text → Result EmailReservationError (Unit {0})
check_token absent id token_digest = err not_reserved
check_token (awaiting_code current _) id token_digest =
    err (if current == id then not_awaiting_profile else not_current_account_id)
check_token (awaiting_profile current expected) id token_digest =
    if current == id
    then (if text_eq expected token_digest then ok tt else err invalid_account_creation_token)
    else err not_current_account_id
check_token (creating_account current consumed _) id token_digest =
    check_consumed current consumed id token_digest
check_token (account_created current consumed _ _) id token_digest =
    check_consumed current consumed id token_digest

abbrev pub check_profile : RegistrationProfile → Result EmailReservationError (Unit {0})
check_profile p =
    if is_empty p.first_name
    then err empty_first_name
    else if is_empty p.last_name
    then err empty_last_name
    else if ltb p.validation_date p.date_of_birth
    then err future_date_of_birth
    else ok tt

unfoldable pub handle_submit_profile :
    EmailReservation → Text → ℕ → Text → RegistrationProfile → Handled
unfolding Profile.new
handle_submit_profile s email id token_digest submitted =
    let profile =
      Profile.new submitted.first_name submitted.last_name submitted.date_of_birth
        submitted.validation_date in
    or_return (check_token s.phase id token_digest) λ _.
      or_return (check_profile profile)
        λ _. returns (registration_profile_accepted email id token_digest profile)

abbrev pub check_fact :
    ReservationPhase → ℕ → RegistrationProfile → ℕ → Result EmailReservationError (Unit {0})
check_fact absent id profile created_at = err not_reserved
check_fact (awaiting_code _ _) id profile created_at = err not_awaiting_profile
check_fact (awaiting_profile _ _) id profile created_at = err not_awaiting_profile
check_fact (creating_account current _ accepted) id profile created_at =
    if (current == id) && profile_eq accepted profile then ok tt else err account_creation_mismatch
check_fact (account_created current _ accepted original) id profile created_at =
    if (current == id) && (profile_eq accepted profile && (original == created_at))
    then err account_creation_already_completed
    else err account_creation_mismatch

unfoldable pub handle_record_account_created :
    EmailReservation → Text → ℕ → RegistrationProfile → ℕ → Handled
handle_record_account_created s email id profile created_at =
    or_return (check_fact s.phase id profile created_at)
      λ _. returns (account_creation_completed email id created_at)
