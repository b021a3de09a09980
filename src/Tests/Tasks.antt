-- ===== src/Tests/Tasks.antt =====
-- The theorems on tasks, dispatchers and the executor at samples.
use account_management_servi.Base.{
  ℕ, ◌+◌, ◌≡◌, refl, ◌⊎◌, true, false, Bool, none, some, [], ◌∷◌, text, ok, rejects, All, In,
  text_eq,
}
use account_management_servi.Task.Data.{format_eq}
use account_management_servi.Task.Queue.{completed}
use account_management_servi.Task.Budget.{execution_plan}
use account_management_servi.Task.Dispatcher.{
  TaskAdapter, TaskDispatcher, permanent, try_new, register, enumerated, get, dispatch, outcome,
}
use account_management_servi.Task.Dispatcher.Routing.{serves, dispatch-serves}
use account_management_servi.Task.Executor.{
  dispatched, settle_requested, ExecutionInput, execute_and_settle, settle_before,
  settlement_request,
}
use account_management_servi.Task.Executor.Deadlines.{
  IsScheduled, IsResultOf, execution-IsScheduled, settles_the_result,
}
use account_management_servi.Time.{from_secs}
use account_management_servi.Tests.Samples.{sample_format, holder}

-- An adapter that counts its deliveries.
abbrev counting : TaskAdapter Bool ℕ
counting = record { formats = sample_format ∷ []; invoke = λ delivery w. (ok tt, w + 1) }

abbrev router : TaskDispatcher Bool ℕ
router = record {
  adapters = counting ∷ [];
  formats = sample_format ∷ [];
  routes = (sample_format, 0) ∷ [];
}

routed : try_new (counting ∷ []) ≡ ok router
unfolding try_new register enumerated get format_eq text_eq
routed = refl

dispatch-serves_example :
    ((a : TaskAdapter Bool ℕ) × In a (counting ∷ [])
      × (serves sample_format a ≡ true)
      × (dispatch router holder.attempt 0 ≡ outcome (a.invoke holder.attempt 0)))
    ⊎ (All (λ a. serves sample_format a ≡ false) (counting ∷ [])
        × (dispatch router holder.attempt 0
            ≡ (rejects (permanent (text "unsupported task format")), 0)))
dispatch-serves_example = dispatch-serves (counting ∷ []) router holder.attempt 0 routed

-- An execution at time 0 whose handler succeeds after ten seconds.
abbrev input : ExecutionInput
input = record {
  start = 0;
  later = from_secs 10;
  handled = some (ok tt);
  answer = λ r. none;
  jittered = from_secs;
}

execution-IsScheduled_example :
    IsScheduled
      (from_secs 6)
      holder.lease.deadline
      (execute_and_settle (from_secs 6) (from_secs 15) holder input).1
execution-IsScheduled_example = execution-IsScheduled (from_secs 6) (from_secs 15) holder input

executed :
    (execute_and_settle (from_secs 6) (from_secs 15) holder input).1
    ≡ dispatched (from_secs 15) ∷ settle_requested completed (from_secs 16) ∷ []
unfolding execute_and_settle settle_before execution_plan settlement_request
executed = refl

settles_the_result_example : IsResultOf (some (ok tt)) completed
settles_the_result_example =
    settles_the_result (from_secs 6) (from_secs 15) holder input (from_secs 15) (from_secs 16)
      completed executed
