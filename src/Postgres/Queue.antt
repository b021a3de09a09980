-- ===== src/Postgres/Queue.antt =====
-- The queue operations on the table (cqrs-runtime/src/postgres/task_queue): claim, settlement, recovery
-- of expired leases, and the manual restart of failed work.
pub mod Transactions
pub mod Operations
pub mod Integrity
pub mod Holding
pub mod Fencing
pub mod Leases
pub mod Counts
pub mod Answers
use account_management_servi.Base.{
  ℕ, ◌+◌, ◌-◌, ◌*◌, ◌>>◌, ◌≡◌, Bool, true, false, not, ◌&&◌, ◌||◌, Option, none, some, List, [],
  ◌∷◌, map, Text, text, text_eq, ltb, leb, ◌==◌, if◌then◌else◌, Result, ok, err, ◌>>=◌, ok_or,
  map_err, guard, length, take, elem, where_true, sort_by, update_where, ℤ, pos, Outcome, returns,
  rejects, panics,
}
use account_management_servi.Time.{
  Duration, Instant, as_millis, i64_max, instant_checked_add, checked,
}
use account_management_servi.Task.Data.{Json, TaskFormat, TaskAttempt, new_format, new_attempt}
use account_management_servi.Task.Queue.{
  QueueRequestError, invalid_limit, invalid_lease_duration, invalid_retry_delay,
  TaskProcessingError, invalid_request, invalid_delivery, unavailable, SettlementRequest, retry,
  TaskFailureCause, permanent_rejection, attempt_limit_reached, lease_expired, TaskFailure,
  SettlementResult, ownership_lost, completed_result, retry_scheduled, failed_result,
  LeaseRecoveryReport, LeasedTask, redelivery_backoff,
}
use account_management_servi.Task.Queue as Task_queue
use account_management_servi.Postgres.Outbox.{
  Row, Status, pending, processing, completed, failed, is_ready, claimed, is_owned, settled,
  is_expired, recovered, restarted, is_failed, Requested, to_completed, to_pending, to_failed,
}

-- How the connection behaves during one transaction: whether it begins, whether its statements run,
-- whether the commit is confirmed, and whether an unconfirmed commit took effect.
pub record Connection : Type 0 where
  pub begins : Bool
  pub runs : Bool
  pub commits : Bool
  pub durable : Bool

-- The answer and the table after a transaction whose statements ran.
abbrev pub commit : {A R : Type 0} → Connection → A → R → R → Result TaskProcessingError A × R
commit c answer before after =
    if c.commits then (ok answer, after) else (err unavailable, if c.durable then after else before)

-- Whole milliseconds that fit an `i64`.
abbrev pub milliseconds : Duration → QueueRequestError → Result TaskProcessingError ℕ
milliseconds d invalid = ok_or (checked i64_max (as_millis d)) (invalid_request invalid)

-- ORDER BY available_at, id.
abbrev pub sooner : {V : Type 0} → Row V → Row V → Bool
sooner a b =
    ltb a.available_at b.available_at || ((a.available_at == b.available_at) && ltb a.id b.id)

-- ORDER BY locked_until, id; rows without a lease are not among those that are ordered.
abbrev pub until_of : Option ℕ → ℕ
until_of none = 0
until_of (some u) = u

abbrev pub ends_sooner : {V : Type 0} → Row V → Row V → Bool
ends_sooner a b =
    ltb (until_of a.locked_until) (until_of b.locked_until)
    || ((until_of a.locked_until == until_of b.locked_until) && ltb a.id b.id)

-- SELECT id … ORDER BY … LIMIT … FOR UPDATE SKIP LOCKED: `locked` are the rows that other transactions
-- hold.
unfoldable pub select_ids :
    {V : Type 0} → (Row V → Bool) → (Row V → Row V → Bool) → ℕ → (ℕ → Bool) → List (Row V) → List ℕ
select_ids test before limit locked rows =
    map (λ r. r.id)
      (take limit (sort_by before (where_true (λ r. test r && not (locked r.id)) rows)))

-- What the environment gives one claim: the statement's and the clock's time, the tokens of
-- `gen_random_uuid()` by row, the rows locked elsewhere, and the connection.
pub record ClaimInput : Type 0 where
  pub stamp : ℕ
  pub clock : ℕ
  pub token : ℕ → ℕ
  pub locked : ℕ → Bool
  pub connection : Connection

module _ {V : Type 0} (json : Json V) where
  unfoldable pub into_claimed_task :
      TaskFormat → Instant → Row V → ℕ → Result TaskProcessingError (LeasedTask V)
  unfolding new_attempt
  into_claimed_task f deadline r token =
      elim (new_attempt json r.id f r.payload r.metadata (pos r.attempts)) [
        | ok attempt ↦ ok (record {
          attempt = attempt;
          lease = record { lock_token = token; deadline = deadline };
        })
        | err e ↦ err invalid_delivery
      ]

  -- Rows that carry no token are not returned by a claim.
  abbrev pub token_of : Option ℕ → ℕ
  token_of none = 0
  token_of (some t) = t

  unfoldable pub into_claimed_tasks :
      TaskFormat → Instant → List (Row V) → Result TaskProcessingError (List (LeasedTask V))
  unfolding into_claimed_task
  into_claimed_tasks f deadline [] = ok []
  into_claimed_tasks f deadline (r ∷ rs) = do
    task ← into_claimed_task f deadline r (token_of r.lock_token)
    tasks ← into_claimed_tasks f deadline rs
    ok (task ∷ tasks)

  -- The guards that come before the transaction; `now` is the local clock.
  abbrev pub claim_deadline : Instant → ℕ → Duration → Result TaskProcessingError Instant
  claim_deadline now limit lease = do
    guard (not (as_millis lease == 0)) (invalid_request invalid_lease_duration)
    deadline ← ok_or (instant_checked_add now lease) (invalid_request invalid_lease_duration)
    guard (leb limit i64_max) (invalid_request invalid_limit)
    ok deadline

  -- The statement: the table after it, and the rows that it returns.
  unfoldable pub claim_rows :
      TaskFormat → Text → ℕ → ℕ → ClaimInput → List (Row V) → List (Row V) × List (Row V)
  unfolding select_ids
  claim_rows f owner limit lease_ms i rows =
      let ids = select_ids (is_ready f i.stamp) sooner limit i.locked rows in
      let take_row = λ (r : Row V). claimed owner (i.token r.id) (i.clock + lease_ms * 1_000) r in
      (
        update_where (λ r. elem r.id ids) take_row rows,
        map take_row (where_true (λ r. elem r.id ids) rows),
      )

  abbrev pub claim_commit :
      Connection
      → List (Row V)
      → List (Row V)
      → Result TaskProcessingError (List (LeasedTask V))
      → Result TaskProcessingError (List (LeasedTask V)) × List (Row V)
  claim_commit c rows rows' (err e) = (err e, rows)
  claim_commit c rows rows' (ok tasks) = commit c tasks rows rows'

  unfoldable pub claim :
      Instant
      → TaskFormat
      → Text
      → ℕ
      → Duration
      → ClaimInput
      → List (Row V)
      → Result TaskProcessingError (List (LeasedTask V)) × List (Row V)
  claim now f owner limit lease i rows = elim (claim_deadline now limit lease) [
    | err e ↦ (err e, rows)
    | ok deadline ↦
        if not i.connection.begins
        then (err unavailable, rows)
        else elim (milliseconds lease invalid_lease_duration) [
          | err e ↦ (err e, rows)
          | ok lease_ms ↦
              if not i.connection.runs
              then (err unavailable, rows)
              else let (rows', returned) = claim_rows f owner limit lease_ms i rows in
                claim_commit i.connection rows rows' (into_claimed_tasks f deadline returned)
        ]
  ]

pub record SettlementParameters : Type 0 where
  pub status : Requested
  pub delay : Duration
  pub last_error : Option Text
  pub failure_cause : Option TaskFailureCause

unfoldable pub settlement_parameters : SettlementRequest → SettlementParameters
settlement_parameters Task_queue.completed = record {
  status = to_completed;
  delay = 0;
  last_error = none;
  failure_cause = none;
}
settlement_parameters (retry delay reason) = record {
  status = to_pending;
  delay = delay;
  last_error = some reason;
  failure_cause = some attempt_limit_reached;
}
settlement_parameters (Task_queue.failed reason) = record {
  status = to_failed;
  delay = 0;
  last_error = some reason;
  failure_cause = some permanent_rejection;
}

abbrev pub failed_task :
    {V : Type 0}
    → TaskAttempt V
    → Option TaskFailureCause
    → Result TaskProcessingError SettlementResult
failed_task a none = err invalid_delivery
failed_task a (some cause) =
    ok (failed_result (record { id = a.id; format = a.format; attempt = a.number; cause = cause }))

unfoldable pub settlement_result :
    {V : Type 0}
    → TaskAttempt V
    → Option Status
    → Option TaskFailureCause
    → Result TaskProcessingError SettlementResult
settlement_result a none cause = ok ownership_lost
settlement_result a (some completed) cause = ok completed_result
settlement_result a (some pending) cause = ok retry_scheduled
settlement_result a (some failed) cause = failed_task a cause
settlement_result a (some processing) cause = err invalid_delivery

-- The environment of a settlement or a recovery.
pub record QueueInput : Type 0 where
  pub stamp : ℕ
  pub clock : ℕ
  pub locked : ℕ → Bool
  pub connection : Connection

-- At most 2048 characters of a reason are stored.
abbrev pub stored_error : Option Text → Option Text
stored_error none = none
stored_error (some reason) = some (take 2048 reason)

abbrev pub first_status : {V : Type 0} → List (Row V) → Option Status
first_status [] = none
first_status (r ∷ rs) = some r.status

-- The statement: the table after it, and the status that it returns.
unfoldable pub settle_rows :
    {V : Type 0}
    → LeasedTask V
    → SettlementParameters
    → ℕ
    → QueueInput
    → List (Row V)
    → List (Row V) × Option Status
settle_rows {V} task p delay_ms i rows =
    let owned = λ (r : Row V). is_owned task.attempt.id task.lease.lock_token i.clock r in
    let set = λ (r : Row V). settled i.stamp p.status delay_ms (stored_error p.last_error) r in
    (update_where owned set rows, first_status (map set (where_true owned rows)))

abbrev pub and_result :
    {A R : Type 0}
    → Result TaskProcessingError (Result TaskProcessingError A) × R
    → Result TaskProcessingError A × R
and_result (ok r, rows) = (r, rows)
and_result (err e, rows) = (err e, rows)

unfoldable pub settle :
    {V : Type 0}
    → LeasedTask V
    → SettlementRequest
    → QueueInput
    → List (Row V)
    → Result TaskProcessingError SettlementResult × List (Row V)
settle task request i rows =
    if not i.connection.begins
    then (err unavailable, rows)
    else let p = settlement_parameters request in
      elim (milliseconds p.delay invalid_retry_delay) [
        | err e ↦ (err e, rows)
        | ok delay_ms ↦
            if not i.connection.runs
            then (err unavailable, rows)
            else let (rows', status) = settle_rows task p delay_ms i rows in
              and_result (
                commit i.connection (settlement_result task.attempt status p.failure_cause) rows
                  rows')
      ]

unfoldable pub into_failure : {V : Type 0} → Row V → Result TaskProcessingError TaskFailure
unfolding new_format
into_failure r =
    map_err (new_format r.format.task_type r.format.task_version) (λ _. invalid_delivery) >>= λ f.
    ok (record { id = r.id; format = f; attempt = pos r.attempts; cause = lease_expired })

abbrev pub with_failure :
    {R : Type 0}
    → Result TaskProcessingError TaskFailure
    → Result TaskProcessingError (List TaskFailure × R)
    → Result TaskProcessingError (List TaskFailure × R)
with_failure f rest = do first ← f; (fs, rows) ← rest; ok (first ∷ fs, rows)

-- The loop over the selected rows, which carry the values that SELECT read; `jittered` gives each row
-- its backoff.
unfoldable pub recover_loop :
    {V : Type 0}
    → (ℕ → ℕ → Duration)
    → ℕ
    → List (Row V)
    → List (Row V)
    → Result TaskProcessingError (List TaskFailure × List (Row V))
unfolding into_failure redelivery_backoff
recover_loop jittered stamp [] rows = ok ([], rows)
recover_loop jittered stamp (r ∷ rs) rows = do
  delay_ms ← milliseconds (redelivery_backoff (jittered r.id) (pos r.attempts)) invalid_retry_delay
  let rows' = update_where (λ x. x.id == r.id) (recovered stamp delay_ms) rows
  let rest = recover_loop jittered stamp rs rows'
  if leb r.max_attempts r.attempts then with_failure (into_failure r) rest else rest

abbrev pub recover_commit :
    {V : Type 0}
    → Connection
    → ℕ
    → List (Row V)
    → Result TaskProcessingError (List TaskFailure × List (Row V))
    → Result TaskProcessingError LeaseRecoveryReport × List (Row V)
recover_commit c processed rows (err e) = (err e, rows)
recover_commit c processed rows (ok (failures, rows')) =
    commit c (record { retried_count = processed - length failures; failures = failures }) rows
      rows'

-- SELECT … FOR UPDATE SKIP LOCKED of the expired rows, in order.
unfoldable pub expired_rows : {V : Type 0} → ℕ → QueueInput → List (Row V) → List (Row V)
expired_rows limit i rows =
    take limit
      (sort_by ends_sooner (where_true (λ r. is_expired i.stamp r && not (i.locked r.id)) rows))

unfoldable pub recover_expired :
    {V : Type 0}
    → (ℕ → ℕ → Duration)
    → ℕ
    → QueueInput
    → List (Row V)
    → Result TaskProcessingError LeaseRecoveryReport × List (Row V)
recover_expired jittered limit i rows =
    if not i.connection.begins
    then (err unavailable, rows)
    else if ltb i64_max limit
    then (err (invalid_request invalid_limit), rows)
    else if not i.connection.runs
    then (err unavailable, rows)
    else let selected = expired_rows limit i rows in
      recover_commit i.connection (length selected) rows
        (recover_loop jittered i.stamp selected rows)

-- The statement of the requeue script: only failed work is restarted.
unfoldable pub requeue_failed : {V : Type 0} → ℕ → ℕ → List (Row V) → List (Row V)
requeue_failed stamp id rows =
    update_where (λ r. (r.id == id) && is_failed r.status) (restarted stamp) rows
