-- ===== src/System/Completes.antt =====
-- The end of a registration whose creation task is published
-- (account-managements-service/src/application/user_account).
use account_management_servi.Base.{ℕ, ◌≡◌, some, Text, In, sym, ap, ◌∙◌, ℤ}
use mathlib.Core.Path.{subst}
use account_management_servi.Task.Data.{NewTask}
use account_management_servi.Task.Dispatcher.{dispatch}
use account_management_servi.Domain.Profile.{RegistrationProfile}
use account_management_servi.Domain.EmailReservation.{EmailReservation, account_created}
use account_management_servi.Domain.UserAccount.{CreatedAccount}
use account_management_servi.Application.Registration.{
  CreateAccountTaskV1, RecordAccountCreatedTaskV1,
}
use account_management_servi.Application.Tasks.{Services, handle_creation, handle_record}
use account_management_servi.Application.Tasks.Wiring.{
  create_format, record_format, dispatcher, delivery_of, attempt, creates_at, records_at,
}
use account_management_servi.Application.Tasks.Effects.{outcome-world}
use account_management_servi.Application.Tasks.Published.{ReadsBack}
use account_management_servi.System.{Store, RunsOn, Reaches, IsEmptyStore}
use account_management_servi.System.Sound.{HasAccepted, IsAccountOf, IsSound, IsRecorded}
use account_management_servi.System.Endings.{HasAccepted-unique}
use account_management_servi.System.Deliveries.{deliver-IsSound}
use account_management_servi.System.Registered.{Reaches-IsSound, IsEmptyStore-IsSound}
use account_management_servi.System.Healthy.{
  Serializes, CanCreate, CanComplete, IsFreeFor, Exists, creation-Exists, record-completes,
}

module _ {V W : Type 0} (store : Store V W) (uuid : ℕ → Text) (services : Services V W)
    (runs : RunsOn store uuid services) where
  module _ (decimal : ℤ → Text) where
    abbrev delivered : NewTask V → ℤ → W → W
    delivered task number w = (dispatch (dispatcher services decimal) (delivery_of task number) w).1

    delivered-creation :
        (task : NewTask V) (number : ℤ) (w : W) (t : CreateAccountTaskV1)
        → task.format ≡ create_format
        → services.read_creation task.payload ≡ some t
        → delivered task number w ≡ (handle_creation services t (delivery_of task number) w).1
    delivered-creation task number w t f r =
        subst
          (λ g.
            let x = attempt task.id g task.payload task.metadata number in
            (dispatch (dispatcher services decimal) x w).1 ≡ (handle_creation services t x w).1)
          (sym f)
          (ap (λ y. y.1)
              (creates_at services decimal task.id task.payload task.metadata number w t r)
            ∙ outcome-world services decimal _)

    delivered-record :
        (task : NewTask V) (number : ℤ) (w : W) (t : RecordAccountCreatedTaskV1)
        → task.format ≡ record_format
        → services.read_record task.payload ≡ some t
        → delivered task number w ≡ (handle_record services t (delivery_of task number) w).1
    delivered-record task number w t f r =
        subst
          (λ g.
            let x = attempt task.id g task.payload task.metadata number in
            (dispatch (dispatcher services decimal) x w).1 ≡ (handle_record services t x w).1)
          (sym f)
          (ap (λ y. y.1)
              (records_at services decimal task.id task.payload task.metadata number w t r)
            ∙ outcome-world services decimal _)

    module _ (reads_back : ReadsBack services) where
      completion_delivered :
          (w : W) (id : Text) (x : CreatedAccount) (a : IsRecorded store uuid services w id x)
          → IsSound store uuid services w
          → (number : ℤ) (email : Text) (i : ℕ) (profile : RegistrationProfile) → x.email ≡ email
          → HasAccepted (store.reservation w email).phase i profile
          → CanComplete services w email i profile
          → let w' = delivered a.task number w in
            (digest : Text) × (created_at : ℕ) × ((store.reservation w' email).phase
              ≡ account_created i digest profile created_at)
            × IsAccountOf (store.account w' (uuid i)) email i profile created_at
      completion_delivered w id x a h number email i profile same accepted answered =
          let p = a.payload in
          let w' = delivered a.task number w in
          let here : p.email ≡ email =
            sym (ap (λ (y : CreatedAccount). y.email) a.describes) ∙ same in
          let (recorded, exists) = (h.tasks a.task a.is_published).records p a.has_format a.reads in
          let (same_id, same_profile) =
            HasAccepted-unique _ p.account_id i p.profile profile
              (subst (λ y. HasAccepted (store.reservation w y).phase p.account_id p.profile) here
                recorded)
              accepted in
          let (digest, at, q) =
            subst
              (λ v.
                (digest : Text) × (created_at : ℕ) × ((store.reservation v p.email).phase
                  ≡ account_created p.account_id digest p.profile created_at))
              (sym (delivered-record a.task number w p a.has_format a.reads))
              (record-completes store uuid services runs p (delivery_of a.task number) w
                (subst (λ y. CanComplete services w y p.account_id p.profile) (sym here)
                  (subst (λ y. CanComplete services w email y p.profile) (sym same_id)
                    (subst (λ y. CanComplete services w email i y) (sym same_profile) answered)))
                recorded) in
          let q' : (store.reservation w' email).phase ≡ account_created i digest profile at =
            subst (λ y. (store.reservation w' y).phase ≡ account_created i digest profile at) here
              (q ∙ cc (same_id, same_profile)) in
          let h' =
            deliver-IsSound store uuid services runs reads_back decimal a.task number w
              a.is_published h in
          (digest, at, q', h'.completions email i digest profile at q')

      -- From every store that the service reaches from an empty one, a registration whose creation task is
      -- published comes to its end, unless another reservation has an account under its ID: a delivery of
      -- that task, at whatever time, leaves a completion task published, and a delivery of that one leaves
      -- the reservation completed with its profile, and its account existing as the reservation records it.
      -- Of these two deliveries it is required that the command of each is answered, by a commit or a
      -- rejection, in the store that it meets. That excludes conflicts, technical failures and a framework
      -- that panics, as the one of cqrs-es does when a snapshot is due at the completing event and `apply`
      -- runs on it twice: of a registration that meets this nothing is said. The gateways run each command as
      -- a transaction, serde reads back what it wrote, and completion payloads can be written.
      pub completes_after :
          (start w : W) (task : NewTask V) (t : CreateAccountTaskV1) (first second : ℤ)
          → IsEmptyStore store services decimal start
          → Reaches store services decimal start w
          → In task (store.published w)
          → task.format ≡ create_format
          → services.read_creation task.payload ≡ some t
          → IsFreeFor store uuid services runs w t.account_id t.email
          → Serializes services
          → CanCreate services w t
          → CanComplete services (delivered task first w) t.email t.account_id t.profile
          → let w' = delivered task first w in
            (completion : NewTask V) × In completion (store.published w')
            × (let w'' = delivered completion second w' in
                (digest : Text) × (created_at : ℕ) × ((store.reservation w'' t.email).phase
                  ≡ account_created t.account_id digest t.profile created_at)
                × IsAccountOf
                    (store.account w'' (uuid t.account_id))
                    t.email
                    t.account_id
                    t.profile
                    created_at)
      completes_after start w task t first second empty reached m f r free serializes can_create
            can_complete =
          let w' = delivered task first w in
          let h =
            Reaches-IsSound store uuid services decimal runs reads_back start w reached
              (IsEmptyStore-IsSound store uuid services decimal start empty) in
          let h' = deliver-IsSound store uuid services runs reads_back decimal task first w m h in
          let accepted = (h.tasks task m).creates t f r in
          let (x, e, same, kept) =
            subst (Exists store uuid services runs w t.account_id t.email)
              (sym (delivered-creation task first w t f r))
              (creation-Exists store uuid services runs t (delivery_of task first) w serializes
                can_create free (h.profiles t.email t.account_id t.profile accepted)) in
          let a = h'.accounts (uuid t.account_id) x e in
          let accepted' : HasAccepted (store.reservation w' t.email).phase t.account_id t.profile =
            subst (λ (z : EmailReservation). HasAccepted z.phase t.account_id t.profile) (sym kept)
              accepted in
          (
            a.task,
            a.is_published,
            completion_delivered w' (uuid t.account_id) x a h' second t.email t.account_id t.profile
                same accepted' can_complete,
          )
