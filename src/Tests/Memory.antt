-- ===== src/Tests/Memory.antt =====
-- The service in memory: frameworks that run the aggregates over maps, and payloads that are kept as they are.
use account_management_servi.Base.{
  ℕ, ◌≡◌, refl, inl, inr, true, Option, none, some, ap, sym, List, [], ◌++◌, Text, text_eq,
  text_eq_refl, if◌then◌else◌, Result, ok, err, returns, rejects, panics, Outcome, arith, text,
  map_err,
}
use account_management_servi.Task.Data.{Json, NewTask}
use account_management_servi.Command.{AggregateError, user_error, unexpected_error, unavailable}
use account_management_servi.Command.Executor.{map_aggregate_error}
use account_management_servi.Domain.EmailReservation.{
  EmailReservation, default, EmailReservationCommand, EmailReservationEvent, EmailReservationError,
}
use account_management_servi.Domain.EmailReservation.Aggregate as Reservation
use account_management_servi.Domain.UserAccount.{
  UserAccount, UserAccountCommand, UserAccountEvent, UserAccountError,
}
use account_management_servi.Domain.UserAccount as Account
use account_management_servi.Application.Gateways.{aggregate_id}
use account_management_servi.Application.Reservations.{SendVerificationCodeTaskV1}
use account_management_servi.Application.Registration.{
  CreateAccountTaskV1, RecordAccountCreatedTaskV1,
}
use account_management_servi.Application.Tasks.{Services}
use account_management_servi.Application.Tasks.Published.{ReadsBack}
use account_management_servi.Infrastructure.{
  account_aggregate_id, email_reservation_gateway, user_account_gateway,
}
use account_management_servi.System.{
  Store, Same, commits, fails, refuses, RunsOn, RanReservation, RanAccount,
}
use account_management_servi.System.Gateways.{Framework, wired, Transacts, wired-RunsOn}

pub data Payload : Type 0 where
  nothing : Payload
  code : SendVerificationCodeTaskV1 → Payload
  creation : CreateAccountTaskV1 → Payload
  recording : RecordAccountCreatedTaskV1 → Payload

abbrev pub json : Json Payload
json = record { is_object = λ v. true; empty = nothing; empty-IsObject = refl }

pub record World : Type 0 where
  pub reservations : Text → EmailReservation
  pub accounts : Text → UserAccount
  pub published : List (NewTask Payload)

abbrev pub store : Store Payload World
store = record {
  reservation = λ w id. w.reservations id;
  account = λ w id. w.accounts id;
  published = λ w. w.published;
}

abbrev pub empty : World
empty = record { reservations = λ id. default; accounts = λ id. Account.default; published = [] }

-- The tests have one account.
abbrev pub uuid : ℕ → Text
uuid n = text "id"

abbrev pub reserved :
    World
    → Text
    → List (NewTask Payload)
    → Outcome EmailReservationError (EmailReservation × EmailReservationEvent)
    → Result (AggregateError EmailReservationError) (Unit {0}) × World
reserved w id tasks (returns (s, e)) = (
  ok tt,
  record w {
    reservations = λ x. if text_eq x id then s else w.reservations x;
    published = w.published ++ tasks;
  },
)
reserved w id tasks (rejects e) = (err (user_error e), w)
reserved w id tasks panics = (err unexpected_error, w)

abbrev pub created :
    World
    → Text
    → List (NewTask Payload)
    → Result UserAccountError (UserAccount × UserAccountEvent)
    → Result (AggregateError UserAccountError) (Unit {0}) × World
created w id tasks (ok (s, e)) = (
  ok tt,
  record w {
    accounts = λ x. if text_eq x id then s else w.accounts x;
    published = w.published ++ tasks;
  },
)
created w id tasks (err e) = (err (user_error e), w)

abbrev pub reservations : Framework EmailReservationError EmailReservationCommand Payload World
reservations = record {
  Built = List (NewTask Payload);
  build_framework = λ tasks. tasks;
  framework_execute =
      λ tasks id c w. reserved w id tasks (Reservation.execute (w.reservations id) c);
  max_attempts = 2;
  sleep = λ n w. w;
}

abbrev pub accounts : Framework UserAccountError UserAccountCommand Payload World
accounts = record {
  Built = List (NewTask Payload);
  build_framework = λ tasks. tasks;
  framework_execute = λ tasks id c w. created w id tasks (Account.execute (w.accounts id) c);
  max_attempts = 2;
  sleep = λ n w. w;
}

abbrev pub unwired : Services Payload World
unwired = record {
  json = json;
  email_gateway = record {
    execute = λ c w. (err unavailable, w);
    execute_with_outbox = λ c tasks w. (err unavailable, w);
  };
  account_gateway = record { execute_with_outbox = λ c tasks w. (err unavailable, w) };
  clock = λ w. 900;
  task_id = λ w. 3;
  write_creation = λ t. some (creation t);
  read_creation = λ v. elim v [ creation t ↦ some t | _ ↦ none ];
  write_record = λ t. some (recording t);
  read_record = λ v. elim v [ recording t ↦ some t | _ ↦ none ];
  write_code = λ t. some (code t);
  read_code = λ v. elim v [ code t ↦ some t | _ ↦ none ];
  sender = λ message delivery w. (ok tt, w);
}

abbrev pub services : Services Payload World
services = wired store uuid reservations accounts unwired

the_same : (w : World) → Same store w w
the_same w = record { reservations = λ id. refl; accounts = λ id. refl; tasks = refl }

reserved-Ran :
    (c : EmailReservationCommand) (tasks : List (NewTask Payload)) (w : World)
    (x : Outcome EmailReservationError (EmailReservation × EmailReservationEvent))
    → Reservation.execute (w.reservations (aggregate_id c)) c ≡ x
    → let (r, w') = reserved w (aggregate_id c) tasks x in
      RanReservation store c tasks w (map_err r map_aggregate_error, w')
unfolding map_aggregate_error
reserved-Ran c tasks w (returns (s, e)) h =
    commits (rw (text_eq_refl (aggregate_id c)) (e, h)) (λ other n. rw n refl) refl (λ id. refl)
      (inl refl)
reserved-Ran c tasks w (rejects e) h = refuses e (the_same w) refl h
reserved-Ran c tasks w panics h = fails (the_same w) (inr refl)

created-Ran :
    (c : UserAccountCommand) (tasks : List (NewTask Payload)) (w : World)
    (x : Result UserAccountError (UserAccount × UserAccountEvent))
    → Account.execute (w.accounts (account_aggregate_id uuid c)) c ≡ x
    → let (r, w') = created w (account_aggregate_id uuid c) tasks x in
      RanAccount store uuid c tasks w (map_err r map_aggregate_error, w')
unfolding map_aggregate_error
created-Ran c tasks w (ok (s, e)) h =
    commits (rw (text_eq_refl (account_aggregate_id uuid c)) (e, h)) (λ other n. rw n refl) refl
      (λ id. refl) (inl refl)
created-Ran c tasks w (err e) h = refuses e (the_same w) refl h

pub transacts : Transacts store uuid reservations accounts
transacts = record {
  positive = (omega arith, omega arith);
  reservation = λ c tasks w. reserved-Ran c tasks w _ refl;
  account = λ c tasks w. created-Ran c tasks w _ refl;
}

pub runs : RunsOn store uuid services
runs =
    wired-RunsOn store uuid reservations accounts unwired transacts (λ n w. the_same w)
      (λ n w. the_same w) (λ message delivery w. the_same w)

abbrev read_of : {T : Type 0} → (Payload → Option T) → Option Payload → Option T
read_of read none = none
read_of read (some v) = read v

pub reads_back : ReadsBack services
unfolding email_reservation_gateway user_account_gateway
reads_back = record {
  code = λ t v h. ap (read_of unwired.read_code) (sym h);
  creation = λ t v h. ap (read_of unwired.read_creation) (sym h);
  recording = λ t v h. ap (read_of unwired.read_record) (sym h);
}
