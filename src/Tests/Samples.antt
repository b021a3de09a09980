-- ===== src/Tests/Samples.antt =====
-- Sample data of the tests.
use account_management_servi.Base.{
  refl, Bool, true, false, none, some, List, [], ◌∷◌, Text, text, pos,
}
use account_management_servi.Task.Data.{Json, TaskFormat, NewTask, now}
use account_management_servi.Task.Queue.{LeasedTask}
use account_management_servi.Domain.Profile.{RegistrationProfile}
use account_management_servi.Domain.EmailReservation.{
  EmailReservationCommand, reserve_email, verify_email, submit_registration_profile,
  record_account_created,
}
use account_management_servi.Postgres.Outbox.{Row, pending, processing}
use account_management_servi.Postgres.Queue.{Connection, ClaimInput, QueueInput}

abbrev pub email : Text
email = text "ann@example.org"

abbrev pub digest : Text
digest = text "5e88"

abbrev pub profile : RegistrationProfile
profile = record {
  first_name = text "Ann";
  last_name = text "Lee";
  date_of_birth = 700_000;
  validation_date = 739_000;
}

abbrev pub reserving : EmailReservationCommand
reserving = reserve_email email 7 1_234_567

abbrev pub verifying : EmailReservationCommand
verifying = verify_email email 7 1_234_567 digest

abbrev pub submitting : EmailReservationCommand
submitting = submit_registration_profile email 7 digest profile

abbrev pub recording : EmailReservationCommand
recording = record_account_created email 7 profile 900

abbrev pub registration : List EmailReservationCommand
registration = reserving ∷ verifying ∷ submitting ∷ recording ∷ []

-- A JSON value is the truth that it is an object.
abbrev pub json : Json Bool
json = record { is_object = λ b. b; empty = true; empty-IsObject = refl }

abbrev pub sample_format : TaskFormat
sample_format = record { task_type = text "create_account"; task_version = pos 1 }

abbrev pub task : NewTask Bool
task = record {
  id = 1;
  format = sample_format;
  payload = true;
  metadata = true;
  schedule = now;
  max_attempts = pos 2;
}

abbrev pub waiting : Row Bool
waiting = record {
  id = 1;
  aggregate_type = text "user_account";
  aggregate_id = email;
  aggregate_sequence = 1;
  format = sample_format;
  payload = true;
  metadata = true;
  status = pending;
  created_at = 0;
  available_at = 0;
  finished_at = none;
  attempts = 0;
  max_attempts = 2;
  last_error = none;
  locked_by = none;
  lock_token = none;
  locked_until = none;
}

-- The second row, whose first attempt is under way until 1000.
abbrev pub leased : Row Bool
leased = record waiting {
  id = 2;
  status = processing;
  attempts = 1;
  locked_by = some (text "w");
  lock_token = some 55;
  locked_until = some 1_000;
}

abbrev pub rows : List (Row Bool)
rows = waiting ∷ leased ∷ []

abbrev pub healthy : Connection
healthy = record { begins = true; runs = true; commits = true; durable = true }

abbrev pub early : QueueInput
early = record { stamp = 10; clock = 10; locked = λ n. false; connection = healthy }

abbrev pub late : QueueInput
late = record { stamp = 5_000; clock = 5_000; locked = λ n. false; connection = healthy }

abbrev pub claim_input : ClaimInput
claim_input = record {
  stamp = 10;
  clock = 10;
  token = λ n. 77;
  locked = λ n. false;
  connection = healthy;
}

-- The holder of the lease of `leased`.
abbrev pub holder : LeasedTask Bool
holder = record {
  attempt = record {
    id = 2;
    format = sample_format;
    payload = true;
    metadata = true;
    number = pos 1;
  };
  lease = record { lock_token = 55; deadline = 100_000_000_000 };
}
