-- ===== src/System/Registered.antt =====
-- The registrations of every store that the service reaches
-- (account-managements-service/src/application, startup/wiring.rs).
use account_management_servi.Base.{ℕ, ◌≡◌, some, Text, In, sym, ap, arith, ℤ}
use mathlib.Core.Path.{subst}
use account_management_servi.Task.Data.{NewTask}
use account_management_servi.Domain.Profile.{RegistrationProfile}
use account_management_servi.Domain.EmailReservation.{EmailReservation, account_created}
use account_management_servi.Domain.UserAccount.{UserAccount, CreatedAccount}
use account_management_servi.Application.Registration.{RecordAccountCreatedTaskV1}
use account_management_servi.Application.Tasks.{Services}
use account_management_servi.Application.Tasks.Wiring.{record_format}
use account_management_servi.Application.Tasks.Published.{ReadsBack}
use account_management_servi.System.{
  Store, Step, idles, reserves, requests, confirms, submits, delivers, Reaches, here, next, RunsOn,
  IsEmptyStore,
}
use account_management_servi.System.Sound.{HasAccepted, IsAccountOf, account_of, IsSound}
use account_management_servi.System.Kept.{Same-IsSound}
use account_management_servi.System.UseCases.{
  reserve-IsSound, request-IsSound, confirm-IsSound, submit-IsSound,
}
use account_management_servi.System.Deliveries.{deliver-IsSound}

module _ {V W : Type 0} (store : Store V W) (uuid : ℕ → Text) (services : Services V W)
    (decimal : ℤ → Text) where
  pub IsEmptyStore-IsSound :
      (w : W) → IsEmptyStore store services decimal w → IsSound store uuid services w
  IsEmptyStore-IsSound w e = record {
    tasks = λ task m. absurd (subst (In task) e.no_task m);
    accounts =
        λ id x q. absurd (ground (arith, ap (λ (r : UserAccount). r.created) (e.no_account id), q));
    completions = λ email i digest profile at q.
        absurd (ground (arith, ap (λ (r : EmailReservation). r.phase) (e.no_reservation email), q));
    profiles = λ email i profile a. absurd (
        subst (λ (r : EmailReservation). HasAccepted r.phase i profile) (e.no_reservation email) a);
  }

  module _ (runs : RunsOn store uuid services) (reads_back : ReadsBack services) where
    abbrev Sound : W → Type 0
    Sound = IsSound store uuid services

    Step-IsSound : (w w' : W) → Step store services decimal w w' → Sound w → Sound w'
    Step-IsSound w w' (idles s) h = Same-IsSound store uuid services w w' s h
    Step-IsSound w w' (reserves task_id id code email e) h =
        subst Sound (sym e)
          (reserve-IsSound store uuid services runs reads_back task_id id code email w h)
    Step-IsSound w w' (requests task_id id code email e) h =
        subst Sound (sym e)
          (request-IsSound store uuid services runs reads_back task_id id code email w h)
    Step-IsSound w w' (confirms digest token email id code e) h =
        subst Sound (sym e)
          (confirm-IsSound store uuid services runs reads_back digest token email id code w h)
    Step-IsSound w w' (submits digest now task_id s e) h =
        subst Sound (sym e)
          (submit-IsSound store uuid services runs reads_back digest now task_id s w h)
    Step-IsSound w w' (delivers task number m e) h =
        subst Sound (sym e)
          (deliver-IsSound store uuid services runs reads_back decimal task number w m h)

    pub Reaches-IsSound : (w w' : W) → Reaches store services decimal w w' → Sound w → Sound w'
    Reaches-IsSound w _ here h = h
    Reaches-IsSound w w' (next {v = v} r s) h = Step-IsSound v w' s (Reaches-IsSound w v r h)

    -- In every store that the service reaches from an empty one, by use cases and deliveries in any order,
    -- with lost answers, failed commands and repeated deliveries: every account is the one of a reservation
    -- that accepted its profile (same ID, email and dates, trimmed names), and the task that completes that
    -- reservation is published; and every completed reservation has the account of its profile, created at
    -- the time that it records. The gateways run each command as a transaction, and serde reads back what
    -- it wrote.
    pub registered :
        (w w' : W)
        → IsEmptyStore store services decimal w
        → Reaches store services decimal w w'
        → ((id : Text) (x : CreatedAccount)
            → (store.account w' id).created ≡ some x
            → (task : NewTask V) × (t : RecordAccountCreatedTaskV1) × In task (store.published w')
              × (task.format ≡ record_format)
              × (services.read_record task.payload ≡ some t)
              × (id ≡ uuid t.account_id)
              × (x ≡ account_of t.email t.account_id t.profile t.created_at)
              × HasAccepted (store.reservation w' t.email).phase t.account_id t.profile)
          × ((email : Text) (i : ℕ) (digest : Text) (profile : RegistrationProfile) (at : ℕ)
              → (store.reservation w' email).phase ≡ account_created i digest profile at
              → IsAccountOf (store.account w' (uuid i)) email i profile at)
    registered w w' e r =
        let h = Reaches-IsSound w w' r (IsEmptyStore-IsSound w e) in
        (
          λ id x q.
              let a = h.accounts id x q in
              (
                a.task,
                a.payload,
                a.is_published,
                a.has_format,
                a.reads,
                a.at_id,
                a.describes,
                ((h.tasks a.task a.is_published).records a.payload a.has_format a.reads).0,
              ),
          h.completions,
        )
