-- ===== src/Domain/EmailReservation/Lifecycle.antt =====
-- The life of a registration as a step relation, to which the aggregate is compared
-- (account-managements-service/src/domain/email_reservation).
use account_management_servi.Base.{
  ℕ, ◌≤◌, ◌≡◌, refl, ◌≢◌, ◌↔◌, Text, [], arith, returns, text_eq_iff, text_eq_refl,
}
use account_management_servi.Domain.Profile
use account_management_servi.Domain.Profile.{RegistrationProfile, profile_eq_iff, profile_eq_refl}
use account_management_servi.Domain.EmailReservation.{
  ReservationPhase, absent, awaiting_code, awaiting_profile, creating_account, account_created,
  EmailReservation, EmailReservationCommand, reserve_email, request_verification_code, verify_email,
  submit_registration_profile, record_account_created, EmailReservationEvent, email_reserved,
  verification_code_requested, verification_restarted, email_verified,
  registration_profile_accepted, account_creation_completed,
}
use account_management_servi.Domain.EmailReservation.Aggregate.{execute}

abbrev pub SevenDigits : ℕ → Type 0
SevenDigits code = (1_000_000 ≤ code) × (code ≤ 9_999_999)

-- The profile that the handlers keep of a submitted one.
abbrev pub normalised : RegistrationProfile → RegistrationProfile
unfolding Profile.new
normalised p = Profile.new p.first_name p.last_name p.date_of_birth p.validation_date

pub record IsComplete (p : RegistrationProfile) : Type 0 where
  pub first_given : p.first_name ≢ []
  pub last_given : p.last_name ≢ []
  pub born : p.date_of_birth ≤ p.validation_date

-- The steps of a registration: which command takes which phase to which.
pub data Step (p : ReservationPhase) (c : EmailReservationCommand) (q : ReservationPhase)
    : Type 0 where
  reserves :
      (email : Text) (id code : ℕ)
      → p ≡ absent
      → c ≡ reserve_email email id code
      → SevenDigits code
      → q ≡ awaiting_code id code
      → Step p c q
  reissues :
      (email : Text) (id code current expected : ℕ)
      → p ≡ awaiting_code current expected
      → c ≡ request_verification_code email id code
      → current ≢ id
      → SevenDigits code
      → q ≡ awaiting_code id code
      → Step p c q
  restarts :
      (email : Text) (id code current : ℕ) (digest : Text)
      → p ≡ awaiting_profile current digest
      → c ≡ request_verification_code email id code
      → current ≢ id
      → SevenDigits code
      → q ≡ awaiting_code id code
      → Step p c q
  verifies :
      (email : Text) (id code : ℕ) (digest : Text)
      → p ≡ awaiting_code id code
      → c ≡ verify_email email id code digest
      → q ≡ awaiting_profile id digest
      → Step p c q
  accepts :
      (email : Text) (id : ℕ) (digest : Text) (profile : RegistrationProfile)
      → p ≡ awaiting_profile id digest
      → c ≡ submit_registration_profile email id digest profile
      → IsComplete (normalised profile)
      → q ≡ creating_account id digest (normalised profile)
      → Step p c q
  completes :
      (email : Text) (id : ℕ) (digest : Text) (profile : RegistrationProfile) (created_at : ℕ)
      → p ≡ creating_account id digest profile
      → c ≡ record_account_created email id profile created_at
      → q ≡ account_created id digest profile created_at
      → Step p c q

abbrev pub in_phase : ReservationPhase → EmailReservation
in_phase p = record { phase = p }

execute-in_phase :
    (p : ReservationPhase) (c : EmailReservationCommand) (q : ReservationPhase)
    (e : EmailReservationEvent)
    → execute (in_phase p) c ≡ returns (in_phase q, e)
    → Step p c q
unfolding execute
execute-in_phase absent (reserve_email email id code) q e h =
    reserves email id code refl refl (ground arith, ground arith) (ground arith)
execute-in_phase (awaiting_code i x) (request_verification_code email id code) q e h =
    reissues email id code i x refl refl (ground arith) (ground arith, ground arith) (ground arith)
execute-in_phase (awaiting_profile i d) (request_verification_code email id code) q e h =
    restarts email id code i d refl refl (ground arith) (ground arith, ground arith) (ground arith)
execute-in_phase (awaiting_code i x) (verify_email email id code digest) q e h =
    verifies email id code digest (ground arith) refl (ground arith)
execute-in_phase (awaiting_profile i d) (submit_registration_profile email id digest profile) q e
      h =
    accepts email id digest profile (ground (arith, text_eq_iff d digest)) refl
      (record { first_given = ground arith; last_given = ground arith; born = ground arith })
      (ground (arith, text_eq_iff d digest))
execute-in_phase (creating_account i d p) (record_account_created email id profile at) q e h =
    completes email id d profile at (ground (arith, profile_eq_iff p profile)) refl
      (ground (arith, profile_eq_iff p profile))
execute-in_phase _ _ q e h = ground arith

-- Every accepted command is a step of the lifecycle, from the phase before to the phase after.
pub execute-Step :
    (s s' : EmailReservation) (c : EmailReservationCommand) (e : EmailReservationEvent)
    → execute s c ≡ returns (s', e)
    → Step s.phase c s'.phase
execute-Step s s' c e h = execute-in_phase s.phase c s'.phase e h

-- Every step of the lifecycle is taken: its command is accepted and leaves its phase.
pub Step-execute :
    (s : EmailReservation) (c : EmailReservationCommand) (q : ReservationPhase)
    → Step s.phase c q
    → (e : EmailReservationEvent) × (execute s c ≡ returns (in_phase q, e))
unfolding execute
Step-execute s c q (reserves email id code p k d r) = (email_reserved email id code, ground arith)
Step-execute s c q (reissues email id code i x p k n d r) =
    (verification_code_requested email id code, ground arith)
Step-execute s c q (restarts email id code i x p k n d r) =
    (verification_restarted email id code, ground arith)
Step-execute s c q (verifies email id code digest p k r) =
    (email_verified email id digest, ground arith)
Step-execute s c q (accepts email id digest profile p k v r) = (
  registration_profile_accepted email id digest (normalised profile),
  ground (arith, text_eq_refl digest, v.first_given, v.last_given, v.born),
)
Step-execute s c q (completes email id digest profile at p k r) =
    (account_creation_completed email id at, ground (arith, profile_eq_refl profile))

-- The aggregate implements the lifecycle: from any state, a command is accepted into a phase exactly
-- when the lifecycle has a step that takes it there.
pub execute_iff_Step :
    (s : EmailReservation) (c : EmailReservationCommand) (q : ReservationPhase)
    → ((e : EmailReservationEvent) × (execute s c ≡ returns (in_phase q, e))) ↔ Step s.phase c q
execute_iff_Step s c q = (λ h. execute-Step s (in_phase q) c h.0 h.1, Step-execute s c q)
