-- ===== src/System/Endings.antt =====
-- What the last two commands of a registration find
-- (account-managements-service/src/application/user_account).
use account_management_servi.Base.{
  ℕ, ◌≡◌, refl, ◌≢◌, ◌⊎◌, inl, inr, none, [], Text, sym, ◌∙◌, arith, err, ◌≤◌, trim,
}
use account_management_servi.Domain.Profile
use account_management_servi.Domain.Profile.{RegistrationProfile}
use account_management_servi.Domain.EmailReservation.{
  ReservationPhase, absent, awaiting_code, awaiting_profile, creating_account, account_created,
  record_account_created,
}
use account_management_servi.Domain.EmailReservation.Lifecycle as Lifecycle
use account_management_servi.Domain.EmailReservation.Lifecycle.{
  IsComplete, normalised, reserves, reissues, restarts, verifies, accepts, completes, execute-Step,
  Step-execute,
}
use account_management_servi.Domain.UserAccount.{
  UserAccount, UserAccountCommand, CreatedAccount, UserAccountError,
}
use account_management_servi.Domain.UserAccount as Account
use account_management_servi.Application.Registration.{CreateAccountTaskV1, creation}
use account_management_servi.System.Sound.{HasAccepted}

-- A complete profile's account is created where there is none.
pub creation_accepted :
    (t : CreateAccountTaskV1) (now : ℕ) (s : UserAccount) (e : UserAccountError)
    → s.created ≡ none
    → IsComplete (normalised t.profile)
    → Account.execute s (creation t now) ≢ err e
unfolding Account.execute Profile.new
creation_accepted t now s e n complete h =
    let first : trim t.profile.first_name ≢ [] = complete.first_given in
    let last : trim t.profile.last_name ≢ [] = complete.last_given in
    let born : t.profile.date_of_birth ≤ t.profile.validation_date = complete.born in
    ground (arith, n, h, first, last, born)

-- The only step that completes a registration leaves its last phase.
pub completed_by_record :
    (email : Text) (i : ℕ) (profile : RegistrationProfile) (at : ℕ) (p q : ReservationPhase)
    → Lifecycle.Step p (record_account_created email i profile at) q
    → (digest : Text) × (q ≡ account_created i digest profile at)
completed_by_record email i profile at p q (reserves em id code e k d r) =
    absurd (ground (arith, k))
completed_by_record email i profile at p q (reissues em id code x y e k n d r) =
    absurd (ground (arith, k))
completed_by_record email i profile at p q (restarts em id code x y e k n d r) =
    absurd (ground (arith, k))
completed_by_record email i profile at p q (verifies em id code digest e k r) =
    absurd (ground (arith, k))
completed_by_record email i profile at p q (accepts em id digest accepted e k v r) =
    absurd (ground (arith, k))
completed_by_record email i profile at p q (completes em id digest accepted at' e k r) =
    (digest, ground (arith, k, r))

-- An accepted profile's registration is in its last phase, or its completion is accepted.
pub completion_accepted :
    (email : Text) (i : ℕ) (profile : RegistrationProfile) (at : ℕ) (p : ReservationPhase)
    → HasAccepted p i profile
    → ((digest : Text) × (created_at : ℕ) × (p ≡ account_created i digest profile created_at))
      ⊎ ((q : ReservationPhase) × Lifecycle.Step p (record_account_created email i profile at) q)
completion_accepted email i profile at absent h = absurd h
completion_accepted email i profile at (awaiting_code id code) h = absurd h
completion_accepted email i profile at (awaiting_profile id digest) h = absurd h
completion_accepted email i profile at (creating_account id digest accepted) (e, k) = inr (
  account_created i digest profile at,
  completes email i digest profile at (ground (arith, e, k)) refl refl,
)
completion_accepted email i profile at (account_created id digest accepted at') (e, k) =
    inl (digest, at', ground (arith, e, k))

pub HasAccepted-unique :
    (p : ReservationPhase) (i j : ℕ) (x y : RegistrationProfile)
    → HasAccepted p i x
    → HasAccepted p j y
    → (i ≡ j) × (x ≡ y)
HasAccepted-unique absent i j x y h k = absurd h
HasAccepted-unique (awaiting_code id code) i j x y h k = absurd h
HasAccepted-unique (awaiting_profile id digest) i j x y h k = absurd h
HasAccepted-unique (creating_account id digest a) i j x y (e, f) (g, h) = (sym e ∙ g, sym f ∙ h)
HasAccepted-unique (account_created id digest a at) i j x y (e, f) (g, h) = (sym e ∙ g, sym f ∙ h)
