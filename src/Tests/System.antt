-- ===== src/Tests/System.antt =====
-- The theorems on the whole service, along one registration in memory.
use account_management_servi.Base.{
  ℕ, ◌≡◌, refl, inl, inr, some, Text, text, In, ℤ, pos, arith, text_eq, trim, trim_start, trim_end,
  is_whitespace, ok,
}
use account_management_servi.Task.Data.{NewTask, new_task, new_format, from_payload, now, format_eq}
use account_management_servi.Task.Dispatcher.{dispatch, outcome, get, invoke_json}
use account_management_servi.Domain.Profile.{RegistrationProfile}
use account_management_servi.Domain.EmailReservation.{account_created}
use account_management_servi.Domain.EmailReservation.Aggregate as Reservation
use account_management_servi.Domain.UserAccount.{CreatedAccount}
use account_management_servi.Domain.UserAccount as Account
use account_management_servi.Application.Reservations.{
  SendVerificationCodeTaskV1, reserve, confirm_email, send_verification_code,
}
use account_management_servi.Application.Registration.{
  ProfileSubmission, CreateAccountTaskV1, RecordAccountCreatedTaskV1, submit_profile,
  create_account, create_account_payload, record_account_created_payload,
}
use account_management_servi.Infrastructure.{email_reservation_gateway, user_account_gateway}
use account_management_servi.Command.Executor.{execute}
use account_management_servi.Command.Retry.{attempts, retry_on_aggregate_conflict}
use account_management_servi.Application.Tasks.{
  dispatcher_factory, handle_send, handle_creation, handle_record,
}
use account_management_servi.Application.Tasks.Wiring.{
  create_format, record_format, delivery_of, dispatcher,
}
use account_management_servi.Application.Tasks.Published.{published_served}
use account_management_servi.System.{
  Reaches, here, next, reserves, confirms, submits, delivers, IsEmptyStore,
}
use account_management_servi.System.Sound.{HasAccepted, IsAccountOf, account_of}
use account_management_servi.System.Registered.{registered}
use account_management_servi.System.Gateways.{RunsLast, wired-RunsLast}
use account_management_servi.System.Completes.{completes_after}
use account_management_servi.Tests.Samples.{email}
use account_management_servi.Tests.Healthy.{always_creates, always_completes, writes}
use account_management_servi.Tests.Memory.{
  Payload, creation, recording, World, store, empty, uuid, services, runs, reads_back, json,
  reservations, accounts, unwired, transacts,
}

abbrev decimal : ℤ → Text
decimal n = text "1"

abbrev digest : Text → Text
digest token = token

abbrev submission : ProfileSubmission
submission = record {
  email = email;
  account_id = 7;
  account_creation_token = text "secret";
  first_name = text " Ann";
  last_name = text "Lee";
  date_of_birth = 1_000;
}

abbrev submitted_at : ℕ
submitted_at = 1_800_000_000_000_000_000

abbrev after_reserve : World
after_reserve =
    (reserve services.json services.write_code services.email_gateway 1 7 1_234_567 email empty).1

abbrev after_confirm : World
after_confirm =
    (confirm_email services.json services.write_code services.email_gateway digest (text "secret")
      email 7 1_234_567 after_reserve).1

abbrev after_submit : World
after_submit =
    (submit_profile services.json services.email_gateway services.account_gateway
      services.write_creation digest submitted_at 2 submission after_confirm).1

no_store : IsEmptyStore store services decimal empty
no_store = record { no_reservation = λ id. refl; no_account = λ id. refl; no_task = refl }

submitted : Reaches store services decimal empty after_submit
submitted =
    next
      (next (next here (reserves 1 7 1_234_567 email refl))
        (confirms digest (text "secret") email 7 1_234_567 refl))
      (submits digest submitted_at 2 submission refl)

abbrev ann : RegistrationProfile
ann = record {
  first_name = text "Ann";
  last_name = text "Lee";
  date_of_birth = 1_000;
  validation_date = 20_833;
}

abbrev creating : CreateAccountTaskV1
creating = record { email = email; account_id = 7; profile = ann }

abbrev creation_task : NewTask Payload
creation_task = record {
  id = 2;
  format = create_format;
  payload = creation creating;
  metadata = json.empty;
  schedule = now;
  max_attempts = pos 10;
}

is_published : In creation_task (store.published after_submit)
unfolding reserve confirm_email submit_profile Reservation.execute new_task new_format from_payload
    email_reservation_gateway user_account_gateway execute retry_on_aggregate_conflict attempts
    text_eq trim trim_start trim_end is_whitespace
is_published = inr (inl refl)

free :
    (x : CreatedAccount) → (store.account after_submit (uuid 7)).created ≡ some x → x.email ≡ email
unfolding reserve confirm_email submit_profile email_reservation_gateway user_account_gateway
    execute retry_on_aggregate_conflict attempts
free x h = absurd (ground (arith, h))

abbrev delivered : NewTask Payload → World → World
delivered task w = (dispatch (dispatcher services decimal) (delivery_of task (pos 1)) w).1

reads : services.read_creation creation_task.payload ≡ some creating
unfolding email_reservation_gateway user_account_gateway
reads = refl

completes_after_example :
    (completion : NewTask Payload) × In completion
      (store.published (delivered creation_task after_submit))
    × (let w'' = delivered completion (delivered creation_task after_submit) in
        (digest : Text) × (created_at : ℕ) × ((store.reservation w'' email).phase
          ≡ account_created 7 digest ann created_at)
        × IsAccountOf (store.account w'' (uuid 7)) email 7 ann created_at)
completes_after_example =
    completes_after store uuid services runs decimal reads_back empty after_submit creation_task
      creating (pos 1) (pos 1) no_store submitted is_published refl reads free writes
      (always_creates after_submit creating) (always_completes _ email 7 ann)

abbrev recording_task : NewTask Payload
recording_task = record creation_task {
  id = 3;
  format = record_format;
  payload = recording (record { email = email; account_id = 7; profile = ann; created_at = 900 });
}

abbrev after_creation : World
after_creation = delivered creation_task after_submit

abbrev after_recording : World
after_recording = delivered recording_task after_creation

is_recorded : In recording_task (store.published after_creation)
unfolding reserve confirm_email submit_profile Reservation.execute new_task new_format from_payload
    email_reservation_gateway user_account_gateway execute retry_on_aggregate_conflict attempts
    text_eq trim trim_start trim_end is_whitespace dispatch get invoke_json format_eq
    handle_creation create_account Account.execute
is_recorded = inr (inr (inl refl))

finished : Reaches store services decimal empty after_recording
finished =
    next (next submitted (delivers creation_task (pos 1) is_published refl))
      (delivers recording_task (pos 1) is_recorded refl)

registered_example :
    ((id : Text) (x : CreatedAccount)
      → (store.account after_recording id).created ≡ some x
      → (task : NewTask Payload) × (t : RecordAccountCreatedTaskV1) × In task
          (store.published after_recording)
        × (task.format ≡ record_format)
        × (services.read_record task.payload ≡ some t)
        × (id ≡ uuid t.account_id)
        × (x ≡ account_of t.email t.account_id t.profile t.created_at)
        × HasAccepted (store.reservation after_recording t.email).phase t.account_id t.profile)
    × ((email : Text) (i : ℕ) (digest : Text) (profile : RegistrationProfile) (at : ℕ)
        → (store.reservation after_recording email).phase ≡ account_created i digest profile at
        → IsAccountOf (store.account after_recording (uuid i)) email i profile at)
registered_example =
    registered store uuid services decimal runs reads_back empty after_recording no_store finished

published_served_example :
    (dispatcher_factory services decimal ≡ ok (dispatcher services decimal))
    × ((t : SendVerificationCodeTaskV1) (id : ℕ) (number : ℤ) (task : NewTask Payload) (w : World)
        → new_task services.json (send_verification_code services.write_code) id t ≡ ok task
        → dispatch (dispatcher services decimal) (delivery_of task number) w
          ≡ outcome (handle_send services.sender t (delivery_of task number) w))
    × ((t : CreateAccountTaskV1) (id : ℕ) (number : ℤ) (task : NewTask Payload) (w : World)
        → new_task services.json (create_account_payload services.write_creation) id t ≡ ok task
        → dispatch (dispatcher services decimal) (delivery_of task number) w
          ≡ outcome (handle_creation services t (delivery_of task number) w))
    × ((t : RecordAccountCreatedTaskV1) (id : ℕ) (number : ℤ) (task : NewTask Payload) (w : World)
        → new_task services.json (record_account_created_payload services.write_record) id t
          ≡ ok task
        → dispatch (dispatcher services decimal) (delivery_of task number) w
          ≡ outcome (handle_record services t (delivery_of task number) w))
published_served_example = published_served services decimal reads_back

wired-RunsLast_example : RunsLast store uuid reservations accounts services
wired-RunsLast_example = wired-RunsLast store uuid reservations accounts unwired transacts
