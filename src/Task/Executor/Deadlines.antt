-- ===== src/Task/Executor/Deadlines.antt =====
-- The times of the executor's calls (cqrs-runtime/src/task/executor/default_executor.rs).
use mathlib.Core.Path.{subst}
use account_management_servi.Base.{
  sym, Option, ◌+◌, ◌≤◌, ◌≡◌, refl, none, some, List, [], ◌∷◌, text, ok, err, arith,
}
use account_management_servi.Time.{Duration, Instant}
use account_management_servi.Task.Queue.{
  LeasedTask, lease_safety_margin, SettlementRequest, completed, failed, redelivery_backoff,
}
use account_management_servi.Task.Queue as Task_queue
use account_management_servi.Task.Budget.{execution_plan}
use account_management_servi.Task.Dispatcher.{retry, permanent}
use account_management_servi.Task.Executor.{
  Call, HandlerResult, dispatched, settle_requested, ExecutionInput, settle_before,
  execute_and_settle, settlement_request, fallback_delay, or_handler_timed_out,
}

-- The calls of one execution: none; a settlement alone, to retry; or the handler, and then at most one
-- settlement.
abbrev pub IsScheduled : Duration → Instant → List Call → Type 0
IsScheduled storage lease [] = Unit
IsScheduled storage lease (dispatched d ∷ []) = d + storage + lease_safety_margin ≤ lease
IsScheduled storage lease (dispatched d ∷ settle_requested r e ∷ []) =
    (d + storage + lease_safety_margin ≤ lease) × (e + lease_safety_margin ≤ lease)
IsScheduled storage lease (settle_requested (Task_queue.retry delay reason) e ∷ []) =
    e + lease_safety_margin ≤ lease
IsScheduled storage lease _ = ⊥

-- The settlement that a handler's result calls for; no result means that the time was over.
unfoldable pub IsResultOf : Option HandlerResult → SettlementRequest → Type 0
IsResultOf (some (ok u)) completed = Unit
IsResultOf (some (err (permanent reason))) (failed reason') = reason' ≡ reason
IsResultOf (some (err (retry reason none))) (Task_queue.retry delay reason') = reason' ≡ reason
IsResultOf (some (err (retry reason (some after)))) (Task_queue.retry delay reason') =
    (reason' ≡ reason) × (delay ≡ after)
IsResultOf none (Task_queue.retry delay reason) = reason ≡ text "handler timed out"
IsResultOf _ _ = ⊥

settlement_request-IsResultOf :
    (handled : Option HandlerResult) (delay : Duration)
    → IsResultOf handled (settlement_request (or_handler_timed_out handled) delay)
unfolding settlement_request IsResultOf
settlement_request-IsResultOf none delay = refl
settlement_request-IsResultOf (some (ok u)) delay = tt
settlement_request-IsResultOf (some (err (permanent reason))) delay = refl
settlement_request-IsResultOf (some (err (retry reason none))) delay = refl
settlement_request-IsResultOf (some (err (retry reason (some after)))) delay = (refl, refl)

module _ {V : Type 0} where
  -- One execution calls nothing, or only a settlement that retries, or the handler and then at most
  -- one settlement. It stops waiting for the handler early enough for the storage timeout and the
  -- safety margin to fit within the lease, and for a settlement early enough for the safety margin.
  pub execution-IsScheduled :
      (storage handler : Duration) (task : LeasedTask V) (i : ExecutionInput)
      → IsScheduled storage task.lease.deadline (execute_and_settle storage handler task i).1
  unfolding execute_and_settle settle_before execution_plan
  execution-IsScheduled storage handler task i = ground arith

  requested :
      (storage handler : Duration) (task : LeasedTask V) (i : ExecutionInput) (d e : Instant)
      (r : SettlementRequest)
      → (execute_and_settle storage handler task i).1 ≡ dispatched d ∷ settle_requested r e ∷ []
      → (delay : Duration) × (r ≡ settlement_request (or_handler_timed_out i.handled) delay)
  unfolding execute_and_settle settle_before
  requested storage handler task i d e r h =
      let result = or_handler_timed_out i.handled in
      (fallback_delay result (redelivery_backoff i.jittered task.attempt.number), ground (arith, h))

  -- When an execution called the handler and then asked for a settlement, the request is the one
  -- that the handler's result calls for: completed exactly after success, failed with its reason
  -- after a permanent error, and otherwise a retry, with the delay that the handler asked for if it
  -- did; no result in time is a retry because of the timeout.
  pub settles_the_result :
      (storage handler : Duration) (task : LeasedTask V) (i : ExecutionInput) (d e : Instant)
      (r : SettlementRequest)
      → (execute_and_settle storage handler task i).1 ≡ dispatched d ∷ settle_requested r e ∷ []
      → IsResultOf i.handled r
  settles_the_result storage handler task i d e r h =
      let (delay, q) = requested storage handler task i d e r h in
      subst (IsResultOf i.handled) (sym q) (settlement_request-IsResultOf i.handled delay)
