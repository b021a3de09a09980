-- ===== src/Infrastructure.antt =====
-- The gateways over command executors (account-managements-service/src/infrastructure/cqrs).
use account_management_servi.Base.{ℕ, Option, none, some, List, [], Text, Result, err}
use account_management_servi.Command.{AggregateError, CommandGatewayError, unavailable}
use account_management_servi.Command.Executor.{execute}
use account_management_servi.Task.Data.{NewTask}
use account_management_servi.Domain.EmailReservation.{
  EmailReservationCommand, EmailReservationError,
}
use account_management_servi.Domain.UserAccount.{
  UserAccountCommand, create_account, UserAccountError,
}
use account_management_servi.Application.Gateways.{
  Answer, EmailReservationGateway, UserAccountGateway, aggregate_id,
}

-- The trait `CommandExecutor`, over a world `W`.
abbrev pub CommandExecutor : Type 0 → Type 0 → Type 0 → Type 0 → Type 0
CommandExecutor D C V W = Text → C → List (NewTask V) → W → Answer D × W

-- The ID of an account's aggregate is its UUID as a text.
abbrev pub account_aggregate_id : (ℕ → Text) → UserAccountCommand → Text
account_aggregate_id uuid (create_account i e f l d v at) = uuid i

module _ {V W : Type 0} where
  unfoldable pub email_reservation_gateway :
      CommandExecutor EmailReservationError EmailReservationCommand V W
      → EmailReservationGateway V W
  unfolding aggregate_id
  email_reservation_gateway executor = record {
    execute = λ c w. executor (aggregate_id c) c [] w;
    execute_with_outbox = λ c tasks w. executor (aggregate_id c) c tasks w;
  }

  unfoldable pub user_account_gateway :
      (ℕ → Text) → CommandExecutor UserAccountError UserAccountCommand V W → UserAccountGateway V W
  user_account_gateway uuid executor = record {
    execute_with_outbox = λ c tasks w. executor (account_aggregate_id uuid c) c tasks w;
  }

-- The executor's result. At the `unreachable!` behind its loop, which a positive attempt limit keeps it
-- from, the model has an unavailable gateway.
abbrev pub settled : {D : Type 0} → Option (Result (CommandGatewayError D) (Unit {0})) → Answer D
settled (some answer) = answer
settled none = err unavailable

-- `CqrsCommandExecutor` as a command executor.
abbrev pub cqrs_executor :
    {D C V Fr W : Type 0}
    → (List (NewTask V) → Fr)
    → (Fr → Text → C → W → Result (AggregateError D) (Unit {0}) × W)
    → ℕ
    → (ℕ → W → W)
    → CommandExecutor D C V W
cqrs_executor build_framework framework_execute max_attempts sleep id c tasks w =
    let (answer, w') = execute build_framework framework_execute max_attempts sleep id c tasks w in
    (settled answer, w')
