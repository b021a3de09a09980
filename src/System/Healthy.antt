-- ===== src/System/Healthy.antt =====
-- The continuations when their commands are answered
-- (account-managements-service/src/application/user_account).
use account_management_servi.Base.{
  ℕ, ◌≡◌, refl, ◌≢◌, inl, inr, some, true, List, [], ◌∷◌, Text, sym, ap, ◌∙◌, arith, ok, err,
  Result, Option-cases,
}
use mathlib.Core.Path.{subst}
use account_management_servi.Task.Data.{
  NewTask, TaskAttempt, TaskFormat, TaskPayload, TaskValidationError, Json, new_task, new_format,
  from_payload,
}
use account_management_servi.Command.{conflict, unavailable}
use account_management_servi.Domain.Profile.{RegistrationProfile}
use account_management_servi.Domain.EmailReservation.{
  EmailReservation, account_created, EmailReservationError, record_account_created,
}
use account_management_servi.Domain.EmailReservation.Lifecycle.{
  IsComplete, normalised, execute-Step, Step-execute,
}
use account_management_servi.Domain.UserAccount.{UserAccount, CreatedAccount, UserAccountError}
use account_management_servi.Application.Gateways.{aggregate_id, Answer}
use account_management_servi.Application.Registration.{
  CreateAccountTaskV1, RecordAccountCreatedTaskV1, creation, record_created, create_account,
  record_account_created_payload, with_task,
}
use account_management_servi.Application.Tasks.{Services, handle_creation, handle_record}
use account_management_servi.Application.Tasks.Wiring.{record_format}
use account_management_servi.Application.Tasks.Published.{built}
use account_management_servi.System.{
  Store, commits, fails, refuses, RunsOn, RanReservation, RanAccount,
}
use account_management_servi.System.Sound.{HasAccepted, account_of}
use account_management_servi.System.Creations.{created_lem, completion_of}
use account_management_servi.System.Steps.{creation_answer-world, record_answer-world}
use account_management_servi.System.Endings.{
  creation_accepted, completed_by_record, completion_accepted,
}

-- The command did not end in a conflict or a technical failure: it was committed, or rejected.
abbrev pub IsAnswered : {D : Type 0} → Answer D → Type 0
IsAnswered answer = (answer ≢ err conflict) × (answer ≢ err unavailable)

module _ {V W : Type 0} (services : Services V W) where
  -- In this store the creation command of the task, whatever its time and its tasks, is answered.
  abbrev pub CanCreate : W → CreateAccountTaskV1 → Type 0
  CanCreate w t =
      (now : ℕ) (tasks : List (NewTask V))
      → IsAnswered (services.account_gateway.execute_with_outbox (creation t now) tasks w).0

  -- In this store the command that completes this registration, whatever its time, is answered.
  abbrev pub CanComplete : W → Text → ℕ → RegistrationProfile → Type 0
  CanComplete w email i profile =
      (at : ℕ)
      → IsAnswered (services.email_gateway.execute (record_account_created email i profile at) w).0

  -- The payload of every completion task can be written.
  abbrev pub Serializes : Type 0
  Serializes =
      (t : RecordAccountCreatedTaskV1)
      → (v : V) × (services.write_record t ≡ some v) × (services.json.is_object v ≡ true)

new_task-built :
    {V T : Type 0} (json : Json V) (p : TaskPayload V T) (f : TaskFormat) (id : ℕ) (t : T) (v : V)
    → new_format p.task_type p.task_version ≡ ok f
    → p.to_value t ≡ some v
    → json.is_object v ≡ true
    → new_task json p id t ≡ ok (built json id f v)
unfolding new_task from_payload
new_task-built json p f id t v q e o = rw (q, e, o) refl

with_task_reaches :
    {V W E A : Type 0} (P : W → Type 0) (e : E) (r : Result TaskValidationError (NewTask V))
    (task : NewTask V) (k : NewTask V → Result E A × W) (w : W)
    → r ≡ ok task
    → P (k task).1
    → P (with_task e r k w).1
with_task_reaches P e r task k w q h = subst (λ x. P (with_task e x k w).1) (sym q) h

module _ {V W : Type 0} (store : Store V W) (uuid : ℕ → Text) (services : Services V W)
    (runs : RunsOn store uuid services) where
  -- There is no account of this ID but that of this email.
  abbrev pub IsFreeFor : W → ℕ → Text → Type 0
  IsFreeFor w i email =
      (x : CreatedAccount) → (store.account w (uuid i)).created ≡ some x → x.email ≡ email

  -- The account exists, and its reservation is as before.
  abbrev pub Exists : W → ℕ → Text → W → Type 0
  Exists w i email w' =
      (x : CreatedAccount) × ((store.account w' (uuid i)).created ≡ some x)
      × (x.email ≡ email)
      × (store.reservation w' email ≡ store.reservation w email)

  ran_creation-Exists :
      (t : CreateAccountTaskV1) (now : ℕ) (tasks : List (NewTask V)) (w w' : W)
      (answer : Answer UserAccountError)
      → RanAccount store uuid (creation t now) tasks w (answer, w')
      → answer ≢ err conflict
      → answer ≢ err unavailable
      → IsFreeFor w t.account_id t.email
      → IsComplete (normalised t.profile)
      → Exists w t.account_id t.email w'
  ran_creation-Exists t now tasks w w' answer (commits (e, k) others appended beside a) nc nu free
        complete =
      (
        account_of t.email t.account_id t.profile now,
        (created_lem t now _ _ e k).1,
        refl,
        beside t.email,
      )
  ran_creation-Exists t now tasks w w' answer (fails s (inl a)) nc nu free complete = absurd (nc a)
  ran_creation-Exists t now tasks w w' answer (fails s (inr a)) nc nu free complete = absurd (nu a)
  ran_creation-Exists t now tasks w w' answer (refuses e s a k) nc nu free complete =
      elim (Option-cases (store.account w (uuid t.account_id)).created) [
        | inl n ↦ absurd (creation_accepted t now _ e n complete k)
        | inr (x, n) ↦ (
          x,
          ap (λ (r : UserAccount). r.created) (s.accounts (uuid t.account_id)) ∙ n,
          free x n,
          s.reservations t.email,
        )
      ]

  pub creation-Exists :
      (t : CreateAccountTaskV1) (delivery : TaskAttempt V) (w : W)
      → Serializes services
      → CanCreate services w t
      → IsFreeFor w t.account_id t.email
      → IsComplete (normalised t.profile)
      → Exists w t.account_id t.email (handle_creation services t delivery w).1
  unfolding handle_creation create_account new_format
  creation-Exists t delivery w serializes answered free complete =
      let now = services.clock w in
      let (v, q, o) = serializes (completion_of t now) in
      let p = record_account_created_payload services.write_record in
      let task = built services.json (services.task_id w) record_format v in
      let (nc, nu) = answered now (task ∷ []) in
      with_task_reaches (Exists w t.account_id t.email) _
        (new_task services.json p (services.task_id w) (completion_of t now)) task _ w
        (new_task-built services.json p record_format (services.task_id w) (completion_of t now) v
          refl q o)
        (subst (Exists w t.account_id t.email) (sym (creation_answer-world _)) (
          ran_creation-Exists t now (task ∷ []) w _ _ (runs.create (creation t now) (task ∷ []) w)
            nc nu free complete))

  ran_completion :
      (email : Text) (i : ℕ) (profile : RegistrationProfile) (at : ℕ) (w w' : W)
      (answer : Answer EmailReservationError)
      → RanReservation store (record_account_created email i profile at) [] w (answer, w')
      → answer ≢ err conflict
      → answer ≢ err unavailable
      → HasAccepted (store.reservation w email).phase i profile
      → (digest : Text) × (created_at : ℕ) × ((store.reservation w' email).phase
          ≡ account_created i digest profile created_at)
  unfolding aggregate_id
  ran_completion email i profile at w w' answer (commits (e, k) others appended beside a) nc nu
        accepted =
      let (digest, q) = completed_by_record email i profile at _ _ (execute-Step _ _ _ e k) in
      (digest, at, q)
  ran_completion email i profile at w w' answer (fails s (inl a)) nc nu accepted = absurd (nc a)
  ran_completion email i profile at w w' answer (fails s (inr a)) nc nu accepted = absurd (nu a)
  ran_completion email i profile at w w' answer (refuses e s a k) nc nu accepted =
      elim (completion_accepted email i profile at _ accepted) [
        | inl (digest, at', q) ↦
            (digest, at', ap (λ (r : EmailReservation). r.phase) (s.reservations email) ∙ q)
        | inr (q, step) ↦
            let (e', k') = Step-execute _ (record_account_created email i profile at) q step in
            absurd (ground (arith, k, k'))
      ]

  pub record-completes :
      (t : RecordAccountCreatedTaskV1) (delivery : TaskAttempt V) (w : W)
      → CanComplete services w t.email t.account_id t.profile
      → HasAccepted (store.reservation w t.email).phase t.account_id t.profile
      → (digest : Text) × (created_at : ℕ) × ((store.reservation
            (handle_record services t delivery w).1
            t.email).phase
          ≡ account_created t.account_id digest t.profile created_at)
  unfolding handle_record record_created
  record-completes t delivery w answered accepted =
      let c = record_account_created t.email t.account_id t.profile t.created_at in
      let (nc, nu) = answered t.created_at in
      subst
        (λ v.
          (digest : Text) × (created_at : ℕ) × ((store.reservation v t.email).phase
            ≡ account_created t.account_id digest t.profile created_at))
        (sym (record_answer-world _))
        (ran_completion t.email t.account_id t.profile t.created_at w _ _ (runs.execute c w) nc nu
          accepted)
