-- ===== src/Application/Tasks/Wiring.antt =====
-- The dispatcher that the service is wired with, and what each delivery makes it do
-- (account-managements-service/src/startup/wiring.rs).
use account_management_servi.Base.{ℕ, some, ◌≡◌, refl, [], ◌∷◌, Text, text, ok, ℤ, pos, text_eq}
use account_management_servi.Task.Data.{TaskAttempt, TaskFormat, format_eq, NewTask, new_format}
use account_management_servi.Task.Dispatcher.{
  TaskHandler, TaskAdapter, TaskDispatcher, dispatch, outcome, get, register, enumerated,
  invoke_json, try_new, task_adapter,
}
use account_management_servi.Application.Reservations.{SendVerificationCodeTaskV1}
use account_management_servi.Application.Registration.{
  CreateAccountTaskV1, RecordAccountCreatedTaskV1,
}
use account_management_servi.Application.Tasks.{
  Services, handle_send, handle_creation, handle_record, dispatcher_factory,
}

abbrev pub send_format : TaskFormat
send_format = record { task_type = text "send_verification_code"; task_version = pos 1 }

abbrev pub create_format : TaskFormat
create_format = record { task_type = text "create_account"; task_version = pos 1 }

abbrev pub record_format : TaskFormat
record_format = record { task_type = text "record_account_created"; task_version = pos 1 }

-- A delivery of a published task.
abbrev pub delivery_of : {V : Type 0} → NewTask V → ℤ → TaskAttempt V
delivery_of task number = record {
  id = task.id;
  format = task.format;
  payload = task.payload;
  metadata = task.metadata;
  number = number;
}

abbrev pub attempt : {V : Type 0} → ℕ → TaskFormat → V → V → ℤ → TaskAttempt V
attempt id f payload metadata number = record {
  id = id;
  format = f;
  payload = payload;
  metadata = metadata;
  number = number;
}

module _ {V W : Type 0} (services : Services V W) (decimal : ℤ → Text) where
  abbrev pub adapter : {P : Type 0} → TaskFormat → TaskHandler V W P → TaskAdapter V W
  adapter f h = record { formats = f ∷ []; invoke = invoke_json decimal h f }

  abbrev pub send_adapter : TaskAdapter V W
  send_adapter =
      adapter send_format
        (record { deserialize = services.read_code; handle = handle_send services.sender })

  abbrev pub create_adapter : TaskAdapter V W
  create_adapter =
      adapter create_format
        (record { deserialize = services.read_creation; handle = handle_creation services })

  abbrev pub record_adapter : TaskAdapter V W
  record_adapter =
      adapter record_format
        (record { deserialize = services.read_record; handle = handle_record services })

  abbrev pub dispatcher : TaskDispatcher V W
  dispatcher = record {
    adapters = send_adapter ∷ create_adapter ∷ record_adapter ∷ [];
    formats = send_format ∷ create_format ∷ record_format ∷ [];
    routes = (record_format, 2) ∷ (create_format, 1) ∷ (send_format, 0) ∷ [];
  }

  pub dispatcher_factory_lem : dispatcher_factory services decimal ≡ ok dispatcher
  unfolding dispatcher_factory try_new register enumerated get format_eq text_eq task_adapter
      new_format
  dispatcher_factory_lem = refl

  pub sends_at :
      (id : ℕ) (payload metadata : V) (number : ℤ) (w : W) (t : SendVerificationCodeTaskV1)
      → services.read_code payload ≡ some t
      → let delivery = attempt id send_format payload metadata number in
        dispatch dispatcher delivery w ≡ outcome (handle_send services.sender t delivery w)
  unfolding dispatch invoke_json get format_eq text_eq
  sends_at id payload metadata number w t h = rw h

  pub creates_at :
      (id : ℕ) (payload metadata : V) (number : ℤ) (w : W) (t : CreateAccountTaskV1)
      → services.read_creation payload ≡ some t
      → let delivery = attempt id create_format payload metadata number in
        dispatch dispatcher delivery w ≡ outcome (handle_creation services t delivery w)
  unfolding dispatch invoke_json get format_eq text_eq
  creates_at id payload metadata number w t h = rw h

  pub records_at :
      (id : ℕ) (payload metadata : V) (number : ℤ) (w : W) (t : RecordAccountCreatedTaskV1)
      → services.read_record payload ≡ some t
      → let delivery = attempt id record_format payload metadata number in
        dispatch dispatcher delivery w ≡ outcome (handle_record services t delivery w)
  unfolding dispatch invoke_json get format_eq text_eq
  records_at id payload metadata number w t h = rw h
