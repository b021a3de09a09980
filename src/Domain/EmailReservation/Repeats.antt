-- ===== src/Domain/EmailReservation/Repeats.antt =====
-- Repeated and late commands, and repeated events
-- (account-managements-service/src/domain/email_reservation). Tasks may be delivered again and out of
-- order, and the snapshot path of the framework applies an accepted event a second time.
use account_management_servi.Base.{
  ℕ, ◌≡◌, refl, Bool, true, false, if◌then◌else◌, ◌&&◌, ◌==◌, Bool-cases, ◌≢◌, ◌⊎◌, inl, inr,
  Option, none, some, List, [], ◌∷◌, ◌∙◌, sym, ap, arith, Text, returns, rejects, text_eq_iff,
}
use account_management_servi.Domain.Profile.{RegistrationProfile, profile_eq, profile_eq_iff}
use account_management_servi.Domain.EmailReservation.{
  ReservationPhase, absent, awaiting_code, awaiting_profile, creating_account, account_created,
  EmailReservation, account_id, phase_account_id, EmailReservationCommand,
  request_verification_code, verify_email, submit_registration_profile, record_account_created,
  EmailReservationEvent, account_creation_completed, not_current_account_id,
  profile_already_submitted, account_creation_already_completed, account_creation_mismatch,
}
use account_management_servi.Domain.EmailReservation.Aggregate.{apply, execute}
use account_management_servi.Domain.EmailReservation.Lifecycle.{normalised}
use account_management_servi.Domain.EmailReservation.History.{advance, run}

-- The account, the consumed token and the profile that a registration was accepted with.
abbrev pub accepted : ReservationPhase → Option (ℕ × Text × RegistrationProfile)
accepted (creating_account i d p) = some (i, d, p)
accepted (account_created i d p at) = some (i, d, p)
accepted _ = none

resubmit :
    (q : ReservationPhase) (email : Text) (id : ℕ) (digest : Text)
    (profile later : RegistrationProfile)
    → accepted q ≡ some (id, digest, profile)
    → execute (record { phase = q }) (submit_registration_profile email id digest later)
      ≡ rejects profile_already_submitted
unfolding execute
resubmit absent email id digest profile later h = cc
resubmit (creating_account i d p) email id digest profile later h =
    ground (arith, text_eq_iff d digest)
resubmit (account_created i d p at) email id digest profile later h =
    ground (arith, text_eq_iff d digest)
resubmit _ email id digest profile later h = cc

submit-accepted :
    (p : ReservationPhase) (q : EmailReservation) (e : EmailReservationEvent) (email : Text)
    (id : ℕ) (digest : Text) (profile : RegistrationProfile)
    → execute (record { phase = p }) (submit_registration_profile email id digest profile)
      ≡ returns (q, e)
    → accepted q.phase ≡ some (id, digest, normalised profile)
unfolding execute
submit-accepted absent q e email id digest profile h = ground arith
submit-accepted _ q e email id digest profile h = ground arith

advance_final :
    (i : ℕ) (d : Text) (p : RegistrationProfile) (at : ℕ) (c : EmailReservationCommand)
    → let s : EmailReservation = record { phase = account_created i d p at } in
      advance s c ≡ (s, [])
unfolding advance
advance_final i d p at c = ground arith

run_final :
    (s : EmailReservation) (i : ℕ) (d : Text) (p : RegistrationProfile) (at : ℕ)
    (cs : List EmailReservationCommand)
    → s.phase ≡ account_created i d p at
    → run s cs ≡ (s, [])
unfolding run
run_final s i d p at [] h = refl
run_final s i d p at (c ∷ cs) h = ground (arith, advance_final i d p at c, run_final s i d p at cs)

advance-accepted :
    (q : ReservationPhase) (c : EmailReservationCommand)
    → accepted q ≢ none
    → accepted (advance (record { phase = q }) c).0.phase ≡ accepted q
unfolding advance
advance-accepted absent c h = absurd (h refl)
advance-accepted (awaiting_code i x) c h = absurd (h refl)
advance-accepted (awaiting_profile i d) c h = absurd (h refl)
advance-accepted (creating_account i d p) (record_account_created email id profile at) h =
    ground (arith, profile_eq_iff p profile)
advance-accepted (creating_account i d p) c h = ground arith
advance-accepted (account_created i d p at) c h = ground arith

-- Once a profile was accepted, no later commands change the account ID, the consumed token or the
-- profile of the registration.
pub run-accepted :
    (s : EmailReservation) (cs : List EmailReservationCommand)
    → accepted s.phase ≢ none
    → accepted (run s cs).0.phase ≡ accepted s.phase
unfolding run
run-accepted s [] h = refl
run-accepted s (c ∷ cs) h =
    let e = advance-accepted s.phase c h in run-accepted (advance s c).0 cs (λ n. h (sym e ∙ n)) ∙ e

-- A token is good for one submission: after the accepted one, and any further commands, every
-- submission under the same account ID and token is rejected as already submitted.
pub submitted_once :
    (s s' : EmailReservation) (e : EmailReservationEvent) (email other : Text) (id : ℕ)
    (digest : Text) (profile later : RegistrationProfile) (cs : List EmailReservationCommand)
    → execute s (submit_registration_profile email id digest profile) ≡ returns (s', e)
    → execute (run s' cs).0 (submit_registration_profile other id digest later)
      ≡ rejects profile_already_submitted
submitted_once s s' e email other id digest profile later cs h =
    resubmit (run s' cs).0.phase other id digest (normalised profile) later
      (run-accepted s' cs (λ n. cc a) ∙ a)
  where
    a : accepted s'.phase ≡ some (id, digest, normalised profile)
    a = submit-accepted s.phase s' e email id digest profile h

-- A completed registration is final: no commands change it or leave an event.
pub completed_is_final :
    (s : EmailReservation) (i : ℕ) (d : Text) (p : RegistrationProfile) (at : ℕ)
    (cs : List EmailReservationCommand)
    → s.phase ≡ account_created i d p at
    → run s cs ≡ (s, [])
completed_is_final s i d p at cs h = run_final s i d p at cs h

record_repeat :
    (q : ReservationPhase) (s' : EmailReservation) (e : EmailReservationEvent) (email other : Text)
    (id : ℕ) (profile : RegistrationProfile) (at : ℕ)
    → execute (record { phase = q }) (record_account_created email id profile at) ≡ returns (s', e)
    → (d : Text) × (s'.phase ≡ account_created id d profile at)
unfolding execute
record_repeat absent s' e email other id profile at h = absurd (ground arith)
record_repeat (awaiting_code i c) s' e email other id profile at h = absurd (ground arith)
record_repeat (awaiting_profile i d) s' e email other id profile at h = absurd (ground arith)
record_repeat (creating_account i d p) s' e email other id profile at h =
    (d, ground (arith, profile_eq_iff p profile))
record_repeat (account_created i d p t) s' e email other id profile at h = absurd (ground arith)

-- Two reports of the creation of an account agree.
abbrev pub SameFact : (id id' : ℕ) (p p' : RegistrationProfile) (at at' : ℕ) → Type 0
SameFact id id' p p' at at' = (id ≡ id') × (p ≡ p') × (at ≡ at')

record_again :
    (q : ReservationPhase) (id id' : ℕ) (d : Text) (p p' : RegistrationProfile) (at at' : ℕ)
    (email : Text)
    → q ≡ account_created id d p at
    → let again = execute (record { phase = q }) (record_account_created email id' p' at') in
      (SameFact id id' p p' at at' × (again ≡ rejects account_creation_already_completed))
      ⊎ ((¬ SameFact id id' p p' at at') × (again ≡ rejects account_creation_mismatch))
unfolding execute
record_again q id id' d p p' at at' email h =
    elim (Bool-cases ((id == id') && (profile_eq p p' && (at == at')))) [
      | inl same ↦ inl (
        (ground arith, ground (arith, profile_eq_iff p p'), ground arith),
        ground (arith, profile_eq_iff p p'),
      )
      | inr other ↦ inr (
        (λ f. ground (arith, f.0, f.1, f.2, profile_eq_iff p p')),
        ground (arith, profile_eq_iff p p'),
      )
    ]

-- Completion is idempotent: after an accepted completion and any further commands, a repeated
-- completion is reported as already completed if its account ID, profile and creation time are those
-- of the first, and as a mismatch otherwise.
pub completed_again :
    (s s' : EmailReservation) (e : EmailReservationEvent) (email other : Text) (id id' : ℕ)
    (p p' : RegistrationProfile) (at at' : ℕ) (cs : List EmailReservationCommand)
    → execute s (record_account_created email id p at) ≡ returns (s', e)
    → let again = execute (run s' cs).0 (record_account_created other id' p' at') in
      (SameFact id id' p p' at at' × (again ≡ rejects account_creation_already_completed))
      ⊎ ((¬ SameFact id id' p p' at at') × (again ≡ rejects account_creation_mismatch))
completed_again s s' e email other id id' p p' at at' cs h =
    let (d, q) = record_repeat s.phase s' e email other id p at h in
    record_again (run s' cs).0.phase id id' d p p' at at' other
      (ap (λ r. r.0.phase) (run_final s' id d p at cs q) ∙ q)

reissue_at :
    (p : ReservationPhase) (s' : EmailReservation) (e : EmailReservationEvent) (email other : Text)
    (id code old old_code : ℕ) (digest : Text)
    → execute (record { phase = p }) (request_verification_code email id code) ≡ returns (s', e)
    → old ≢ id
    → (phase_account_id p ≢ some id)
      × (execute s' (verify_email other old old_code digest) ≡ rejects not_current_account_id)
unfolding execute
reissue_at absent s' e email other id code old old_code digest h n = absurd (ground arith)
reissue_at _ s' e email other id code old old_code digest h n = (ground arith, ground arith)

-- A new code makes the pair that it replaces useless: after an accepted request, a verification under
-- any other account ID, the previous one among them, is rejected as not current.
pub reissue_invalidates :
    (s s' : EmailReservation) (e : EmailReservationEvent) (email other : Text)
    (id code old old_code : ℕ) (digest : Text)
    → execute s (request_verification_code email id code) ≡ returns (s', e)
    → old ≢ id
    → (account_id s ≢ some id)
      × (execute s' (verify_email other old old_code digest) ≡ rejects not_current_account_id)
reissue_invalidates s s' e email other id code old old_code digest h n =
    reissue_at s.phase s' e email other id code old old_code digest h n

-- The event that completes a registration.
abbrev pub is_completion : EmailReservationEvent → Bool
is_completion (account_creation_completed email id at) = true
is_completion _ = false

reapply_at :
    (p : ReservationPhase) (s' : EmailReservation) (e : EmailReservationEvent)
    → apply (record { phase = p }) e ≡ some s'
    → apply s' e ≡ (if is_completion e then none else some s')
unfolding apply
reapply_at absent s' e h = ground arith
reapply_at _ s' e h = ground arith

-- The second application of an event leaves the state alone, except for the completion of a
-- registration: on that one it panics, whatever the state was.
pub apply-apply :
    (s s' : EmailReservation) (e : EmailReservationEvent)
    → apply s e ≡ some s'
    → apply s' e ≡ (if is_completion e then none else some s')
apply-apply s s' e h = reapply_at s.phase s' e h
