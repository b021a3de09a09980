-- ===== src/System.antt =====
-- The service as a whole: its use cases and its tasks at work on one store
-- (account-managements-service/src/application and startup/wiring.rs over cqrs-runtime). The store is seen
-- through the state of each aggregate and the tasks published so far; a task may be delivered again at any
-- time, also after it was settled.
pub mod Sound
pub mod Kept
pub mod Commands
pub mod Creations
pub mod Steps
pub mod UseCases
pub mod Deliveries
pub mod Registered
pub mod Endings
pub mod Healthy
pub mod Completes
pub mod Executors
pub mod Gateways
pub mod Start
use account_management_servi.Base.{
  ℕ, ◌≡◌, ◌⊎◌, false, List, [], ◌∷◌, ◌++◌, Text, text_eq, Result, ok, err, returns, rejects, In, ℤ,
}
use account_management_servi.Task.Data.{NewTask, TaskAttempt}
use account_management_servi.Task.Dispatcher.{dispatch}
use account_management_servi.Command.{CommandGatewayError, domain, conflict, unavailable}
use account_management_servi.Domain.EmailReservation.{
  EmailReservation, default, EmailReservationCommand, EmailReservationEvent, EmailReservationError,
}
use account_management_servi.Domain.EmailReservation.Aggregate as Reservation
use account_management_servi.Domain.UserAccount.{
  UserAccount, UserAccountCommand, UserAccountEvent, UserAccountError,
}
use account_management_servi.Domain.UserAccount as Account
use account_management_servi.Infrastructure.{account_aggregate_id}
use account_management_servi.Application.Gateways.{Answer, aggregate_id}
use account_management_servi.Application.Reservations as Reservations
use account_management_servi.Application.Registration as Registration
use account_management_servi.Application.Registration.{ProfileSubmission}
use account_management_servi.Application.Tasks.{Services, VerificationCodeDelivery}
use account_management_servi.Application.Tasks.Wiring.{dispatcher, delivery_of}

pub record Store (V W : Type 0) : Type 0 where
  pub reservation : W → Text → EmailReservation
  pub account : W → Text → UserAccount
  pub published : W → List (NewTask V)

-- The two stores hold the same aggregates and tasks.
pub record Same {V W : Type 0} (store : Store V W) (w w' : W) : Type 0 where
  pub reservations : (id : Text) → store.reservation w' id ≡ store.reservation w id
  pub accounts : (id : Text) → store.account w' id ≡ store.account w id
  pub tasks : store.published w' ≡ store.published w

-- What one command did. It was committed with its tasks, and the answer says so or was lost; or it left
-- the store alone, and was rejected by the aggregate or failed for a technical reason.
pub data Ran {S C D V W : Type 0} (store : Store V W) (view : W → Text → S)
    (Accepts : S → C → S → Type 0) (Rejects : S → C → D → Type 0) (Beside : W → W → Type 0)
    (id : Text) (c : C) (tasks : List (NewTask V)) (w : W) (answer : Answer D) (w' : W)
    : Type 0 where
  commits :
      Accepts (view w id) c (view w' id)
      → ((other : Text) → text_eq other id ≡ false → view w' other ≡ view w other)
      → store.published w' ≡ store.published w ++ tasks
      → Beside w w'
      → (answer ≡ ok tt) ⊎ (answer ≡ err unavailable)
      → Ran store view Accepts Rejects Beside id c tasks w answer w'
  fails :
      Same store w w'
      → (answer ≡ err conflict) ⊎ (answer ≡ err unavailable)
      → Ran store view Accepts Rejects Beside id c tasks w answer w'
  refuses :
      (e : D)
      → Same store w w'
      → answer ≡ err (domain e)
      → Rejects (view w id) c e
      → Ran store view Accepts Rejects Beside id c tasks w answer w'

abbrev pub AcceptsReservation :
    EmailReservation → EmailReservationCommand → EmailReservation → Type 0
AcceptsReservation s c s' =
    (e : EmailReservationEvent) × (Reservation.execute s c ≡ returns (s', e))

abbrev pub RejectsReservation :
    EmailReservation → EmailReservationCommand → EmailReservationError → Type 0
RejectsReservation s c e = Reservation.execute s c ≡ rejects e

abbrev pub AcceptsAccount : UserAccount → UserAccountCommand → UserAccount → Type 0
AcceptsAccount s c s' = (e : UserAccountEvent) × (Account.execute s c ≡ ok (s', e))

abbrev pub RejectsAccount : UserAccount → UserAccountCommand → UserAccountError → Type 0
RejectsAccount s c e = Account.execute s c ≡ err e

module _ {V W : Type 0} (store : Store V W) where
  abbrev pub RanReservation :
      EmailReservationCommand → List (NewTask V) → W → Answer EmailReservationError × W → Type 0
  RanReservation c tasks w (answer, w') =
      Ran store store.reservation AcceptsReservation RejectsReservation
        (λ v v'. (id : Text) → store.account v' id ≡ store.account v id) (aggregate_id c) c tasks w
        answer w'

  abbrev pub RanAccount :
      (ℕ → Text) → UserAccountCommand → List (NewTask V) → W → Answer UserAccountError × W → Type 0
  RanAccount uuid c tasks w (answer, w') =
      Ran store store.account AcceptsAccount RejectsAccount
        (λ v v'. (id : Text) → store.reservation v' id ≡ store.reservation v id)
        (account_aggregate_id uuid c) c tasks w answer w'

-- What the services rely on: each gateway runs a command as one transaction on its aggregate, and sending
-- a code touches no aggregate and publishes nothing.
pub record RunsOn {V W : Type 0} (store : Store V W) (uuid : ℕ → Text) (services : Services V W)
    : Type 0 where
  pub execute :
      (c : EmailReservationCommand) (w : W)
      → RanReservation store c [] w (services.email_gateway.execute c w)
  pub execute_with_outbox :
      (c : EmailReservationCommand) (tasks : List (NewTask V)) (w : W)
      → RanReservation store c tasks w (services.email_gateway.execute_with_outbox c tasks w)
  pub create :
      (c : UserAccountCommand) (tasks : List (NewTask V)) (w : W)
      → RanAccount store uuid c tasks w (services.account_gateway.execute_with_outbox c tasks w)
  pub send :
      (message : VerificationCodeDelivery) (delivery : TaskAttempt V) (w : W)
      → Same store w (services.sender message delivery w).1

module _ {V W : Type 0} (store : Store V W) (services : Services V W) (decimal : ℤ → Text) where
  -- One use case, one delivery of a published task, or anything that leaves aggregates and tasks alone.
  pub data Step (w w' : W) : Type 0 where
    idles : Same store w w' → Step w w'
    reserves :
        (task_id account_id code : ℕ) (email : Text)
        → w'
          ≡ (Reservations.reserve services.json services.write_code services.email_gateway task_id
              account_id code email w).1
        → Step w w'
    requests :
        (task_id account_id code : ℕ) (email : Text)
        → w'
          ≡ (Reservations.request_new_verification_code services.json services.write_code
              services.email_gateway task_id account_id code email w).1
        → Step w w'
    confirms :
        (digest : Text → Text) (token email : Text) (account_id code : ℕ)
        → w'
          ≡ (Reservations.confirm_email services.json services.write_code services.email_gateway
              digest token email account_id code w).1
        → Step w w'
    submits :
        (digest : Text → Text) (now task_id : ℕ) (submission : ProfileSubmission)
        → w'
          ≡ (Registration.submit_profile services.json services.email_gateway
              services.account_gateway services.write_creation digest now task_id submission w).1
        → Step w w'
    delivers :
        (task : NewTask V) (number : ℤ)
        → In task (store.published w)
        → w' ≡ (dispatch (dispatcher services decimal) (delivery_of task number) w).1
        → Step w w'

  pub data Reaches (w : W) : W → Type 0 where
    here : Reaches w w
    next : {v w' : W} → Reaches w v → Step v w' → Reaches w w'

  -- A store that holds nothing yet.
  pub record IsEmptyStore (w : W) : Type 0 where
    pub no_reservation : (id : Text) → store.reservation w id ≡ default
    pub no_account : (id : Text) → store.account w id ≡ Account.default
    pub no_task : store.published w ≡ []
