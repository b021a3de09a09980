-- ===== src/Tests/Services.antt =====
-- The theorems on the application services over gateways that run the aggregates in memory.
use account_management_servi.Base.{
  ℕ, none, if◌then◌else◌, ◌==◌, ◌≡◌, refl, ◌⊎◌, true, Bool, Option, some, text, Result, ok, err,
  returns, rejects, panics, Outcome, arith, pos, trim, trim_start, trim_end, is_whitespace, text_eq,
}
use account_management_servi.Command.{domain, unavailable}
use account_management_servi.Domain.EmailReservation.{
  EmailReservation, EmailReservationEvent, EmailReservationError,
}
use account_management_servi.Domain.EmailReservation.Aggregate as Reservation
use account_management_servi.Domain.UserAccount.{
  UserAccount, UserAccountCommand, UserAccountError, UserAccountEvent,
}
use account_management_servi.Domain.UserAccount as Account
use account_management_servi.Application.Gateways.{
  EmailReservationGateway, UserAccountGateway, RejectsAsReservation, RejectsAsAccount, addressed,
  Answer,
}
use account_management_servi.Application.Registration.{
  CreateAccountTaskV1, RecordAccountCreatedTaskV1, retry, create_account,
  record_account_created_payload,
}
use account_management_servi.Application.Registration.Continuation.{IsCreatedBy, creation_repeated}
use account_management_servi.Task.Data.{
  NewTask, now, new_task, new_format, from_payload, validate_payload,
}
use account_management_servi.Tests.Samples.{email, json, profile}

-- The world is the state of the one reservation.
abbrev answer_of :
    EmailReservation
    → Outcome EmailReservationError (EmailReservation × EmailReservationEvent)
    → Answer EmailReservationError × EmailReservation
answer_of s (returns (s', e)) = (ok tt, s')
answer_of s (rejects e) = (err (domain e), s)
answer_of s panics = (err unavailable, s)

abbrev pub in_memory : EmailReservationGateway Bool EmailReservation
in_memory = record {
  execute = λ c s. answer_of s (Reservation.execute s c);
  execute_with_outbox = λ c tasks s. answer_of s (Reservation.execute s c);
}

answer_of-rejects :
    (s : EmailReservation)
    (x : Outcome EmailReservationError (EmailReservation × EmailReservationEvent))
    (e : EmailReservationError)
    → (answer_of s x).0 ≡ err (domain e)
    → x ≡ rejects e
answer_of-rejects s (returns (s', v)) e h = absurd (ground (arith, h))
answer_of-rejects s (rejects x) e h = ground (arith, h)
answer_of-rejects s panics e h = absurd (ground (arith, h))

pub in_memory-laws : RejectsAsReservation in_memory
in_memory-laws = record {
  of_execute = λ c s e h. (s, answer_of-rejects s (Reservation.execute s c) e h);
  of_outbox = λ c tasks s e h. (s, answer_of-rejects s (Reservation.execute s c) e h);
}

-- A gateway that the submission does not use.
abbrev pub no_accounts : UserAccountGateway Bool EmailReservation
no_accounts = record { execute_with_outbox = λ c tasks w. (err unavailable, w) }

-- The accounts by their IDs.
abbrev Accounts : Type 0
Accounts = ℕ → UserAccount

-- A gateway that the creation does not use.
abbrev in_memory_unit : EmailReservationGateway Bool Accounts
in_memory_unit = record {
  execute = λ c w. (err unavailable, w);
  execute_with_outbox = λ c tasks w. (err unavailable, w);
}

-- An account that the sample's task has created, and its gateway.
abbrev creating : CreateAccountTaskV1
creating = record { email = email; account_id = 7; profile = profile }

abbrev ann_account : UserAccount
ann_account = record {
  created = some (record {
    account_id = 7;
    email = email;
    first_name = text "Ann";
    last_name = text "Lee";
    date_of_birth = 700_000;
    validation_date = 739_000;
    created_at = 900;
  });
}

abbrev account_answer :
    Accounts
    → ℕ
    → Result UserAccountError (UserAccount × UserAccountEvent)
    → Answer UserAccountError × Accounts
account_answer w i (ok (s, e)) = (ok tt, λ j. if i == j then s else w j)
account_answer w i (err e) = (err (domain e), w)

abbrev account_gateway : UserAccountGateway Bool Accounts
account_gateway = record {
  execute_with_outbox =
      λ c tasks w. account_answer w (addressed c) (Account.execute (w (addressed c)) c);
}

account_answer-rejects :
    (w : Accounts) (i : ℕ) (x : Result UserAccountError (UserAccount × UserAccountEvent))
    (e : UserAccountError)
    → (account_answer w i x).0 ≡ err (domain e)
    → x ≡ err e
account_answer-rejects w i (ok (s, v)) e h = absurd (ground (arith, h))
account_answer-rejects w i (err x) e h = ground (arith, h)

account_gateway-laws : RejectsAsAccount (λ w i. w i) account_gateway
account_gateway-laws = record {
  of_account = λ c tasks w e h.
      let i = addressed c in
      (w i, λ x k. k, account_answer-rejects w i (Account.execute (w i) c) e h);
}

-- Ann's account and one of someone else.
abbrev two_accounts : Accounts
two_accounts i =
    if i == 7
    then ann_account
    else if i == 8
    then record {
      created = some (record {
        account_id = 8;
        email = text "bob@example.org";
        first_name = text "Bob";
        last_name = text "Ray";
        date_of_birth = 710_000;
        validation_date = 739_000;
        created_at = 800;
      });
    }
    else record { created = none }

is_created : IsCreatedBy creating (two_accounts 7)
unfolding trim trim_start trim_end is_whitespace text_eq
is_created = (_, refl, refl)

abbrev recording_task : NewTask Bool
recording_task = record {
  id = 3;
  format = record { task_type = text "record_account_created"; task_version = pos 1 };
  payload = true;
  metadata = true;
  schedule = now;
  max_attempts = pos 10;
}

abbrev written : RecordAccountCreatedTaskV1 → Option Bool
written t = some true

built :
    new_task json
      (record_account_created_payload written)
      3
      (record { email = email; account_id = 7; profile = profile; created_at = 950 })
    ≡ ok recording_task
unfolding new_task new_format from_payload validate_payload
built = refl

creation_repeated_example :
    let x =
      create_account json in_memory_unit account_gateway written 950 3 creating two_accounts in
    (x.0 ≡ ok tt) ⊎ (x.0 ≡ err retry)
creation_repeated_example =
    creation_repeated json in_memory_unit account_gateway (λ w i. w i) written 950 3 creating
      two_accounts recording_task account_gateway-laws is_created built
