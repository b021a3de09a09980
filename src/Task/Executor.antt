-- ===== src/Task/Executor.antt =====
-- One execution of a leased task within its deadlines
-- (cqrs-runtime/src/task/executor/default_executor.rs). The clock, the dispatched handler and the queue are
-- inputs; the calls that the executor makes are recorded.
pub mod Deadlines
use account_management_servi.Base.{
  ℕ, ◌+◌, ◌≡◌, Option, none, some, List, [], ◌∷◌, Text, text, leb, min, if◌then◌else◌, Result, ok,
  err, Outcome, returns, rejects, panics,
}
use account_management_servi.Time.{Duration, Instant, instant_checked_add}
use account_management_servi.Task.Data.{TaskAttempt}
use account_management_servi.Task.Queue.{
  TaskProcessingError, timed_out, lease_budget_exhausted, SettlementRequest, completed, failed,
  SettlementResult, LeasedTask, redelivery_backoff,
}
use account_management_servi.Task.Queue as Task_queue
use account_management_servi.Task.Budget.{
  ExecutionPlan, run, retry_only, recover_only, execution_plan,
}
use account_management_servi.Task.Dispatcher.{TaskHandlerError, retry, permanent}

abbrev pub HandlerResult : Type 0
HandlerResult = Result TaskHandlerError (Unit {0})

-- A call of another component, with the deadline after which the executor no longer waits for it.
pub data Call : Type 0 where
  dispatched : (deadline : Instant) → Call
  settle_requested : (outcome : SettlementRequest) (deadline : Instant) → Call

-- What the environment gives one execution: the clock when it starts and when it settles, the handler's
-- result if it came before its deadline, the queue's answer if it came before its deadline, and the
-- jittered backoff.
pub record ExecutionInput : Type 0 where
  pub start : Instant
  pub later : Instant
  pub handled : Option HandlerResult
  pub answer : SettlementRequest → Option (Result TaskProcessingError SettlementResult)
  pub jittered : ℕ → Duration

abbrev pub Execution : Type 0
Execution = Outcome TaskProcessingError SettlementResult × List Call

abbrev pub or_timed_out :
    Option (Result TaskProcessingError SettlementResult)
    → Outcome TaskProcessingError SettlementResult
or_timed_out none = rejects timed_out
or_timed_out (some (ok r)) = returns r
or_timed_out (some (err e)) = rejects e

-- `now + storage_timeout` panics when the clock cannot represent it.
unfoldable pub settle_before :
    Duration → Instant → ExecutionInput → SettlementRequest → Instant → Execution
settle_before storage_timeout now i outcome settlement_deadline =
    if leb settlement_deadline now
    then (rejects lease_budget_exhausted, [])
    else elim (instant_checked_add now storage_timeout) [
      | none ↦ (panics, [])
      | some limit ↦ (
        or_timed_out (i.answer outcome),
        settle_requested outcome (min limit settlement_deadline) ∷ [],
      )
    ]

abbrev pub unwrap_or : Option Duration → Duration → Duration
unwrap_or none d = d
unwrap_or (some d) _ = d

unfoldable pub settlement_request : HandlerResult → Duration → SettlementRequest
settlement_request (ok u) fallback_delay = completed
settlement_request (err (permanent reason)) fallback_delay = failed reason
settlement_request (err (retry reason retry_after)) fallback_delay =
    Task_queue.retry (unwrap_or retry_after fallback_delay) reason

-- The handler's deadline is checked first.
abbrev pub or_handler_timed_out : Option HandlerResult → HandlerResult
or_handler_timed_out none = err (retry (text "handler timed out") none)
or_handler_timed_out (some r) = r

abbrev pub fallback_delay : HandlerResult → Duration → Duration
fallback_delay (err (retry reason none)) backoff = backoff
fallback_delay _ backoff = 0

abbrev pub after_dispatch : Instant → Execution → Execution
after_dispatch handler_deadline (out, calls) = (out, dispatched handler_deadline ∷ calls)

module _ {V : Type 0} where
  unfoldable pub execute_and_settle :
      Duration → Duration → LeasedTask V → ExecutionInput → Execution
  unfolding settle_before settlement_request redelivery_backoff
  execute_and_settle storage_timeout handler_timeout task i =
      let backoff = redelivery_backoff i.jittered task.attempt.number in
      elim (execution_plan i.start task.lease.deadline handler_timeout storage_timeout) [
        | err e ↦ (rejects e, [])
        | ok recover_only ↦ (rejects lease_budget_exhausted, [])
        | ok (retry_only settlement_deadline) ↦
            settle_before storage_timeout i.later i
              (Task_queue.retry backoff (text "insufficient lease budget before handler execution"))
              settlement_deadline
        | ok (run handler_deadline settlement_deadline) ↦
            let result = or_handler_timed_out i.handled in
            after_dispatch handler_deadline (
              settle_before storage_timeout i.later i
                (settlement_request result (fallback_delay result backoff)) settlement_deadline)
      ]
