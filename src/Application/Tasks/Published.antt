-- ===== src/Application/Tasks/Published.antt =====
-- The tasks that the services publish, at the dispatcher that the service is wired with
-- (account-managements-service/src/application, startup/wiring.rs).
use account_management_servi.Base.{
  ℕ, some, ◌≡◌, refl, Option-cases, inl, inr, Text, ok, arith, ℤ, sym,
}
use mathlib.Core.Path.{subst}
use account_management_servi.Task.Data.{
  TaskPayload, TaskFormat, NewTask, new_format, new_task, from_payload, Json, now,
  default_max_attempts,
}
use account_management_servi.Task.Dispatcher.{dispatch, outcome}
use account_management_servi.Application.Reservations.{
  SendVerificationCodeTaskV1, send_verification_code,
}
use account_management_servi.Application.Registration.{
  CreateAccountTaskV1, RecordAccountCreatedTaskV1, create_account_payload,
  record_account_created_payload,
}
use account_management_servi.Application.Tasks.{
  Services, handle_send, handle_creation, handle_record, dispatcher_factory,
}
use account_management_servi.Application.Tasks.Wiring.{
  send_format, create_format, record_format, delivery_of, dispatcher, sends_at, creates_at,
  records_at, dispatcher_factory_lem,
}

-- Serde reads back what it wrote, for each payload of the service.
pub record ReadsBack {V W : Type 0} (services : Services V W) : Type 0 where
  pub code :
      (t : SendVerificationCodeTaskV1) (v : V)
      → services.write_code t ≡ some v
      → services.read_code v ≡ some t
  pub creation :
      (t : CreateAccountTaskV1) (v : V)
      → services.write_creation t ≡ some v
      → services.read_creation v ≡ some t
  pub recording :
      (t : RecordAccountCreatedTaskV1) (v : V)
      → services.write_record t ≡ some v
      → services.read_record v ≡ some t

-- A task as `NewTask::new` builds it.
abbrev pub built : {V : Type 0} → Json V → ℕ → TaskFormat → V → NewTask V
built json id f v = record {
  id = id;
  format = f;
  payload = v;
  metadata = json.empty;
  schedule = now;
  max_attempts = default_max_attempts;
}

pub new_task-eq_ok :
    {V T : Type 0} (json : Json V) (p : TaskPayload V T) (f : TaskFormat) (id : ℕ) (t : T)
    (task : NewTask V)
    → new_format p.task_type p.task_version ≡ ok f
    → new_task json p id t ≡ ok task
    → (v : V) × (p.to_value t ≡ some v) × (task ≡ built json id f v)
unfolding new_task from_payload
new_task-eq_ok json p f id t task q h = elim (Option-cases (p.to_value t)) [
  | inl e ↦ absurd (ground (arith, q, h, e))
  | inr (v, e) ↦ (v, e, ground (arith, q, h, e))
]

module _ {V W : Type 0} (services : Services V W) (decimal : ℤ → Text)
    (reads_back : ReadsBack services) where
  creation_served :
      (t : CreateAccountTaskV1) (id : ℕ) (number : ℤ) (task : NewTask V) (w : W)
      → new_task services.json (create_account_payload services.write_creation) id t ≡ ok task
      → let delivery = delivery_of task number in
        dispatch (dispatcher services decimal) delivery w
        ≡ outcome (handle_creation services t delivery w)
  unfolding new_format
  creation_served t id number task w h =
      let (v, e, q) =
        new_task-eq_ok services.json (create_account_payload services.write_creation) create_format
          id t task refl h in
      subst
        (λ x.
          dispatch (dispatcher services decimal) (delivery_of x number) w
          ≡ outcome (handle_creation services t (delivery_of x number) w))
        (sym q)
        (creates_at services decimal id v services.json.empty number w t
          (reads_back.creation t v e))

  code_served :
      (t : SendVerificationCodeTaskV1) (id : ℕ) (number : ℤ) (task : NewTask V) (w : W)
      → new_task services.json (send_verification_code services.write_code) id t ≡ ok task
      → let delivery = delivery_of task number in
        dispatch (dispatcher services decimal) delivery w
        ≡ outcome (handle_send services.sender t delivery w)
  unfolding new_format
  code_served t id number task w h =
      let (v, e, q) =
        new_task-eq_ok services.json (send_verification_code services.write_code) send_format id t
          task refl h in
      subst
        (λ x.
          dispatch (dispatcher services decimal) (delivery_of x number) w
          ≡ outcome (handle_send services.sender t (delivery_of x number) w))
        (sym q)
        (sends_at services decimal id v services.json.empty number w t (reads_back.code t v e))

  recording_served :
      (t : RecordAccountCreatedTaskV1) (id : ℕ) (number : ℤ) (task : NewTask V) (w : W)
      → new_task services.json (record_account_created_payload services.write_record) id t ≡ ok task
      → let delivery = delivery_of task number in
        dispatch (dispatcher services decimal) delivery w
        ≡ outcome (handle_record services t delivery w)
  unfolding new_format
  recording_served t id number task w h =
      let (v, e, q) =
        new_task-eq_ok services.json (record_account_created_payload services.write_record)
          record_format id t task refl h in
      subst
        (λ x.
          dispatch (dispatcher services decimal) (delivery_of x number) w
          ≡ outcome (handle_record services t (delivery_of x number) w))
        (sym q)
        (records_at services decimal id v services.json.empty number w t
          (reads_back.recording t v e))

  -- Each of the three tasks that the services publish is one that the dispatcher of the service has a
  -- handler for: the factory builds the dispatcher, and any delivery of a task that `NewTask::new` built
  -- runs the handler of its kind on the very payload that was published, provided that serde reads back
  -- what it wrote.
  pub published_served :
      (dispatcher_factory services decimal ≡ ok (dispatcher services decimal))
      × ((t : SendVerificationCodeTaskV1) (id : ℕ) (number : ℤ) (task : NewTask V) (w : W)
          → new_task services.json (send_verification_code services.write_code) id t ≡ ok task
          → dispatch (dispatcher services decimal) (delivery_of task number) w
            ≡ outcome (handle_send services.sender t (delivery_of task number) w))
      × ((t : CreateAccountTaskV1) (id : ℕ) (number : ℤ) (task : NewTask V) (w : W)
          → new_task services.json (create_account_payload services.write_creation) id t ≡ ok task
          → dispatch (dispatcher services decimal) (delivery_of task number) w
            ≡ outcome (handle_creation services t (delivery_of task number) w))
      × ((t : RecordAccountCreatedTaskV1) (id : ℕ) (number : ℤ) (task : NewTask V) (w : W)
          → new_task services.json (record_account_created_payload services.write_record) id t
            ≡ ok task
          → dispatch (dispatcher services decimal) (delivery_of task number) w
            ≡ outcome (handle_record services t (delivery_of task number) w))
  published_served =
      (dispatcher_factory_lem services decimal, code_served, creation_served, recording_served)
