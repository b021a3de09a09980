-- ===== src/Application/Tasks.antt =====
-- The task handlers of the service and the dispatcher that it is wired with
-- (account-managements-service/src/application/email_reservation/tasks, application/user_account/tasks,
-- infrastructure/console.rs, startup/wiring.rs). A handler reads its clock and its fresh task UUID from
-- the world `W`; serde's reading and writing of each payload are parameters.
pub mod Wiring
pub mod Effects
pub mod Published
use account_management_servi.Base.{
  ℕ, Option, none, some, ◌≡◌, Bool, ◌&&◌, true, List, [], ◌∷◌, ◌++◌, Text, text, leb, if◌then◌else◌,
  Result, ok, err, ◌>>=◌, map_err, ℤ,
}
use account_management_servi.Task.Data.{Json, TaskAttempt, TaskPayload, TaskFormatError}
use account_management_servi.Task.Dispatcher.{
  TaskHandlerError, retry, permanent, TaskHandler, TaskAdapter, task_adapter, TaskDispatcher,
  TaskDispatcherError, invalid_format, try_new,
}
use account_management_servi.Domain.EmailReservation.Handlers.{is_code}
use account_management_servi.Application.Gateways.{EmailReservationGateway, UserAccountGateway}
use account_management_servi.Application.Reservations.{
  SendVerificationCodeTaskV1, send_verification_code,
}
use account_management_servi.Application.Registration.{
  CreateAccountTaskV1, RecordAccountCreatedTaskV1, ContinuationError, create_account_payload,
  record_account_created_payload, create_account, record_created, delivery_error,
}

-- The handler's input, which the stored payload becomes.
pub record VerificationCodeDelivery : Type 0 where
  pub email : Text
  pub account_id : ℕ
  pub verification_code : ℕ

abbrev pub into_delivery : SendVerificationCodeTaskV1 → VerificationCodeDelivery
into_delivery t = record {
  email = t.email;
  account_id = t.account_id;
  verification_code = t.verification_code;
}

abbrev pub VerificationCodeSender : Type 0 → Type 0 → Type 0
VerificationCodeSender V W =
    VerificationCodeDelivery → TaskAttempt V → W → Result TaskHandlerError (Unit {0}) × W

abbrev pub TaskResult : Type 0 → Type 0
TaskResult W = Result TaskHandlerError (Unit {0}) × W

module _ {V W : Type 0} where
  unfoldable pub handle_send :
      VerificationCodeSender V W → SendVerificationCodeTaskV1 → TaskAttempt V → W → TaskResult W
  handle_send sender payload delivery w =
      if is_code payload.verification_code
      then sender (into_delivery payload) delivery w
      else (err (permanent (text "invalid verification code")), w)

  -- `ConsoleVerificationCodeSender`: `write` writes a line and flushes, and may fail.
  unfoldable pub send :
      (Text → W → Bool × W) → (ℕ → Text) → (ℕ → Text) → (ℤ → Text) → VerificationCodeSender V W
  send write decimal uuid signed message delivery w =
      let (written, w') =
        write
          (text "Verification code "
            ++ (decimal message.verification_code
                ++ (text " for account_id "
                    ++ (uuid message.account_id
                        ++ (text " sent to "
                            ++ (message.email
                                ++ (text "; task_id="
                                    ++ (uuid delivery.id
                                        ++ (text "; attempt=" ++ signed delivery.number)))))))))
          w in
      (if written then ok tt else err (retry (text "console write failed") none), w')

-- `map_err(delivery_error)`.
abbrev pub continued : {W : Type 0} → Result ContinuationError (Unit {0}) × W → TaskResult W
continued (r, w) = (map_err r delivery_error, w)

-- What the wiring binds: the two gateways, the clock, the UUIDs of follow-up tasks, and serde.
pub record Services (V W : Type 0) : Type 0 where
  pub json : Json V
  pub email_gateway : EmailReservationGateway V W
  pub account_gateway : UserAccountGateway V W
  pub clock : W → ℕ
  pub task_id : W → ℕ
  pub write_creation : CreateAccountTaskV1 → Option V
  pub read_creation : V → Option CreateAccountTaskV1
  pub write_record : RecordAccountCreatedTaskV1 → Option V
  pub read_record : V → Option RecordAccountCreatedTaskV1
  pub write_code : SendVerificationCodeTaskV1 → Option V
  pub read_code : V → Option SendVerificationCodeTaskV1
  pub sender : VerificationCodeSender V W

module _ {V W : Type 0} (services : Services V W) where
  open services use {json, email_gateway, account_gateway}

  unfoldable pub handle_creation : CreateAccountTaskV1 → TaskAttempt V → W → TaskResult W
  unfolding create_account
  handle_creation payload delivery w = continued (
      create_account json email_gateway account_gateway services.write_record (services.clock w)
        (services.task_id w) payload w)

  unfoldable pub handle_record : RecordAccountCreatedTaskV1 → TaskAttempt V → W → TaskResult W
  unfolding record_created
  handle_record payload delivery w =
      continued (record_created json email_gateway account_gateway payload w)

  module _ (decimal : ℤ → Text) where
    unfoldable pub send_verification_code_task_adapter : Result TaskFormatError (TaskAdapter V W)
    unfolding task_adapter handle_send
    send_verification_code_task_adapter =
        task_adapter decimal (send_verification_code services.write_code)
          (record { deserialize = services.read_code; handle = handle_send services.sender })

    unfoldable pub create_account_task_adapter : Result TaskFormatError (TaskAdapter V W)
    unfolding task_adapter handle_creation
    create_account_task_adapter =
        task_adapter decimal (create_account_payload services.write_creation)
          (record { deserialize = services.read_creation; handle = handle_creation })

    unfoldable pub record_account_created_task_adapter : Result TaskFormatError (TaskAdapter V W)
    unfolding task_adapter handle_record
    record_account_created_task_adapter =
        task_adapter decimal (record_account_created_payload services.write_record)
          (record { deserialize = services.read_record; handle = handle_record })

    -- The closure `dispatcher_factory`, whose `?` turns a format error into a dispatcher's.
    unfoldable pub dispatcher_factory : Result TaskDispatcherError (TaskDispatcher V W)
    unfolding send_verification_code_task_adapter create_account_task_adapter
        record_account_created_task_adapter try_new
    dispatcher_factory = do
      send_code ← map_err send_verification_code_task_adapter invalid_format
      create ← map_err create_account_task_adapter invalid_format
      record_created_task ← map_err record_account_created_task_adapter invalid_format
      try_new (send_code ∷ create ∷ record_created_task ∷ [])
