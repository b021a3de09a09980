-- ===== src/Task/Budget.antt =====
-- The plan of one execution within its lease (cqrs-runtime/src/task/executor/lease_budget.rs).
use account_management_servi.Base.{
  ℕ, ◌+◌, ◌-◌, ◌≤◌, ◌<◌, ◌≡◌, none, some, leb, ltb, if◌then◌else◌, Result, ok, err, ok_or, ◌>>=◌,
  arith,
}
use account_management_servi.Time.{
  Duration, Instant, duration_max, is_zero, checked_add, instant_checked_add, instant_checked_sub,
}
use account_management_servi.Task.Queue.{
  TaskProcessingError, invalid_execution_budget, lease_safety_margin,
}

pub data ExecutionPlan : Type 0 where
  run : (handler_deadline settlement_deadline : Instant) → ExecutionPlan
  retry_only : (settlement_deadline : Instant) → ExecutionPlan
  recover_only : ExecutionPlan

-- The rest of the plan, once there is time left before the settlement deadline.
abbrev pub plan_within :
    Instant → Duration → Duration → Instant → Result TaskProcessingError ExecutionPlan
plan_within now handler_timeout required settlement_deadline =
    if leb settlement_deadline now
    then ok recover_only
    else if ltb (settlement_deadline - now) required
    then ok (retry_only settlement_deadline)
    else do
      handler_deadline ← ok_or (instant_checked_add now handler_timeout) invalid_execution_budget
      ok (run handler_deadline settlement_deadline)

unfoldable pub execution_plan :
    Instant → Instant → Duration → Duration → Result TaskProcessingError ExecutionPlan
execution_plan now lease_deadline handler_timeout storage_timeout =
    if is_zero handler_timeout then err invalid_execution_budget else do
      required ← ok_or (checked_add handler_timeout storage_timeout) invalid_execution_budget
      elim (instant_checked_sub lease_deadline lease_safety_margin) [
        | none ↦ ok recover_only
        | some settlement_deadline ↦ plan_within now handler_timeout required settlement_deadline
      ]

-- A plan to run the handler leaves the lease its safety margin: the handler's deadline is its full
-- timeout away, and after it the whole storage timeout fits before the settlement deadline, which is
-- the safety margin before the end of the lease.
pub run_fits :
    (now lease handler storage handler_deadline settlement_deadline : ℕ)
    → execution_plan now lease handler storage ≡ ok (run handler_deadline settlement_deadline)
    → (handler_deadline ≡ now + handler)
      × (now < handler_deadline)
      × (handler_deadline + storage ≤ settlement_deadline)
      × (settlement_deadline + lease_safety_margin ≡ lease)
unfolding execution_plan
run_fits now lease handler storage hd sd h = ground arith

-- With a positive handler timeout and budgets and instants in range, the plan is decided by the time
-- left: the handler runs exactly if the lease leaves room for the handler, the storage and the safety
-- margin; without that room the task is settled for retry while the settlement deadline lies ahead,
-- and otherwise it is left to recovery.
pub execution_plan_lem :
    (now lease handler storage : ℕ)
    → 0 < handler
    → handler + storage ≤ duration_max
    → now + handler ≤ duration_max
    → execution_plan now lease handler storage ≡ (
        if leb (now + handler + storage + lease_safety_margin) lease
        then ok (run (now + handler) (lease - lease_safety_margin))
        else if ltb (now + lease_safety_margin) lease
        then ok (retry_only (lease - lease_safety_margin))
        else ok recover_only)
unfolding execution_plan
execution_plan_lem now lease handler storage a b c = ground arith
