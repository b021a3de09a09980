-- ===== src/System/Sound.antt =====
-- What holds of every store that the service reaches: what its tasks, its accounts and its completed
-- reservations say of one another (account-managements-service/src/application/user_account).
use account_management_servi.Base.{ℕ, ◌≡◌, ◌⊎◌, some, Text, trim, In}
use account_management_servi.Task.Data.{NewTask}
use account_management_servi.Domain.Profile.{RegistrationProfile}
use account_management_servi.Domain.EmailReservation.{
  ReservationPhase, creating_account, account_created,
}
use account_management_servi.Domain.EmailReservation.Lifecycle.{IsComplete, normalised}
use account_management_servi.Domain.UserAccount.{UserAccount, CreatedAccount}
use account_management_servi.Application.Registration.{
  CreateAccountTaskV1, RecordAccountCreatedTaskV1,
}
use account_management_servi.Application.Tasks.{Services}
use account_management_servi.Application.Tasks.Wiring.{create_format, record_format}
use account_management_servi.System.{Store}

-- The reservation has accepted this profile for this account.
abbrev pub HasAccepted : ReservationPhase → ℕ → RegistrationProfile → Type 0
HasAccepted (creating_account i digest accepted) id profile = (i ≡ id) × (accepted ≡ profile)
HasAccepted (account_created i digest accepted at) id profile = (i ≡ id) × (accepted ≡ profile)
HasAccepted _ id profile = ⊥

-- The account that a profile becomes.
abbrev pub account_of : Text → ℕ → RegistrationProfile → ℕ → CreatedAccount
account_of email id profile created_at = record {
  account_id = id;
  email = email;
  first_name = trim profile.first_name;
  last_name = trim profile.last_name;
  date_of_birth = profile.date_of_birth;
  validation_date = profile.validation_date;
  created_at = created_at;
}

abbrev pub IsAccountOf : UserAccount → Text → ℕ → RegistrationProfile → ℕ → Type 0
IsAccountOf s email id profile created_at =
    s.created ≡ some (account_of email id profile created_at)

module _ {V W : Type 0} (store : Store V W) (uuid : ℕ → Text) (services : Services V W) where
  -- A creation task stands for an accepted profile, and a completion task for the account it names.
  pub record IsTaskSound (w : W) (task : NewTask V) : Type 0 where
    pub creates :
        (t : CreateAccountTaskV1)
        → task.format ≡ create_format
        → services.read_creation task.payload ≡ some t
        → HasAccepted (store.reservation w t.email).phase t.account_id t.profile
    pub records :
        (t : RecordAccountCreatedTaskV1)
        → task.format ≡ record_format
        → services.read_record task.payload ≡ some t
        → HasAccepted (store.reservation w t.email).phase t.account_id t.profile
          × IsAccountOf
              (store.account w (uuid t.account_id))
              t.email
              t.account_id
              t.profile
              t.created_at

  -- The task that completes the registration of this account is published.
  pub record IsRecorded (w : W) (id : Text) (x : CreatedAccount) : Type 0 where
    pub task : NewTask V
    pub payload : RecordAccountCreatedTaskV1
    pub is_published : In task (store.published w)
    pub has_format : task.format ≡ record_format
    pub reads : services.read_record task.payload ≡ some payload
    pub at_id : id ≡ uuid payload.account_id
    pub describes :
        x ≡ account_of payload.email payload.account_id payload.profile payload.created_at

  pub record IsSound (w : W) : Type 0 where
    pub tasks : (task : NewTask V) → In task (store.published w) → IsTaskSound w task
    pub accounts :
        (id : Text) (x : CreatedAccount) → (store.account w id).created ≡ some x → IsRecorded w id x
    pub completions :
        (email : Text) (i : ℕ) (digest : Text) (profile : RegistrationProfile) (at : ℕ)
        → (store.reservation w email).phase ≡ account_created i digest profile at
        → IsAccountOf (store.account w (uuid i)) email i profile at
    pub profiles :
        (email : Text) (i : ℕ) (profile : RegistrationProfile)
        → HasAccepted (store.reservation w email).phase i profile
        → IsComplete (normalised profile)

  -- What a step may not undo.
  pub record Grows (w w' : W) : Type 0 where
    pub reservations :
        (email : Text) (i : ℕ) (profile : RegistrationProfile)
        → HasAccepted (store.reservation w email).phase i profile
        → HasAccepted (store.reservation w' email).phase i profile
    pub accounts :
        (id : Text) (x : CreatedAccount)
        → (store.account w id).created ≡ some x
        → (store.account w' id).created ≡ some x
    pub tasks : (task : NewTask V) → In task (store.published w) → In task (store.published w')

  -- What a step must show of what it adds.
  pub record AddsSound (w w' : W) : Type 0 where
    pub tasks :
        (task : NewTask V)
        → In task (store.published w')
        → In task (store.published w) ⊎ IsTaskSound w' task
    pub accounts :
        (id : Text) (x : CreatedAccount)
        → (store.account w' id).created ≡ some x
        → ((store.account w id).created ≡ some x) ⊎ IsRecorded w' id x
    pub completions :
        (email : Text) (i : ℕ) (digest : Text) (profile : RegistrationProfile) (at : ℕ)
        → (store.reservation w' email).phase ≡ account_created i digest profile at
        → ((store.reservation w email).phase ≡ account_created i digest profile at)
          ⊎ IsAccountOf (store.account w' (uuid i)) email i profile at
    pub profiles :
        (email : Text) (i : ℕ) (profile : RegistrationProfile)
        → HasAccepted (store.reservation w' email).phase i profile
        → HasAccepted (store.reservation w email).phase i profile ⊎ IsComplete (normalised profile)
