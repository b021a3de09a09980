-- ===== src/Postgres/Queue/Answers.antt =====
-- What a settlement answers when its lease is held and PostgreSQL is reachable
-- (cqrs-runtime/src/postgres/task_queue/settlement.rs), request by request.
use account_management_servi.Base.{
  ℕ, ◌≡◌, refl, inl, inr, Bool, true, false, some, List, [], ◌∷◌, map, arith, elem, where_true,
  update_where, ok, leb, if◌then◌else◌, In, ap, sym,
}
use account_management_servi.Time.{as_millis, i64_max}
use account_management_servi.Task.Data.{TaskAttempt}
use account_management_servi.Task.Queue.{
  SettlementRequest, retry, LeasedTask, SettlementResult, completed_result, retry_scheduled,
  failed_result, permanent_rejection, attempt_limit_reached, TaskFailureCause, TaskFailure,
}
use account_management_servi.Task.Queue as Task_queue
use account_management_servi.Postgres.Outbox.{Row, is_owned, settled}
use account_management_servi.Postgres.Queue.{
  QueueInput, settle, settle_rows, settlement_parameters, settlement_result, stored_error,
  first_status,
}
use account_management_servi.Postgres.Queue.Operations.{Unique, ids, elem-ids}
use account_management_servi.Postgres.Queue.Fencing.{settle_confirmed}
use mathlib.Core.Path.{subst}

module _ {V : Type 0} where
  where_true-absent :
      (p : Row V → Bool) (n : ℕ) (rows : List (Row V))
      → ((x : Row V) → p x ≡ true → x.id ≡ n)
      → elem n (ids rows) ≡ false
      → where_true p rows ≡ []
  unfolding where_true elem
  where_true-absent p n [] k h = refl
  where_true-absent p n (x ∷ rows) k h = ground (arith, h, k x, where_true-absent p n rows k)

  -- A test that fixes the id selects one row.
  where_true-one :
      (p : Row V → Bool) (r : Row V) (rows : List (Row V))
      → ((x : Row V) → p x ≡ true → x.id ≡ r.id)
      → Unique (ids rows)
      → In r rows
      → p r ≡ true
      → where_true p rows ≡ r ∷ []
  unfolding where_true
  where_true-one p r [] k u m h = absurd m
  where_true-one p r (x ∷ rows) k u (inl e) h = ground (
    arith,
    subst (λ y. p y ≡ true) e h,
    where_true-absent p r.id rows k
        (subst (λ (y : Row V). elem y.id (ids rows) ≡ false) (sym e) u.0),
    e,
  )
  where_true-one p r (x ∷ rows) k u (inr m) h =
      ground (arith, where_true-one p r rows k u.1 m h, u.0, elem-ids r rows m, k x)

  update_where-In_image :
      (p : Row V → Bool) (f : Row V → Row V) (r : Row V) (rows : List (Row V))
      → In r rows
      → p r ≡ true
      → In (f r) (update_where p f rows)
  unfolding update_where
  update_where-In_image p f r [] m h = m
  update_where-In_image p f r (x ∷ rows) (inl e) h =
      inl (ground (arith, e, subst (λ y. p y ≡ true) e h, ap f e))
  update_where-In_image p f r (x ∷ rows) (inr m) h = inr (update_where-In_image p f r rows m h)

  is_owned-id : (id token clock : ℕ) (x : Row V) → is_owned id token clock x ≡ true → x.id ≡ id
  unfolding is_owned
  is_owned-id id token clock x h = ground (arith, h)

  -- The row as the request leaves it.
  abbrev pub settled_by : LeasedTask V → SettlementRequest → QueueInput → Row V → Row V
  settled_by task request i r =
      let p = settlement_parameters request in
      settled i.stamp p.status (as_millis p.delay) (stored_error p.last_error) r

  settle_rows_owned :
      (task : LeasedTask V) (request : SettlementRequest) (i : QueueInput) (rows : List (Row V))
      (r : Row V)
      → Unique (ids rows)
      → In r rows
      → is_owned task.attempt.id task.lease.lock_token i.clock r ≡ true
      → let p = settlement_parameters request in
        let x = settle_rows task p (as_millis p.delay) i rows in
        (x.1 ≡ some (settled_by task request i r).status) × In (settled_by task request i r) x.0
  unfolding settle_rows
  settle_rows_owned task request i rows r u m h =
      let owned = λ (x : Row V). is_owned task.attempt.id task.lease.lock_token i.clock x in
      let same = is_owned-id task.attempt.id task.lease.lock_token i.clock in
      (
        ap (λ xs. first_status (map (settled_by task request i) xs))
            (where_true-one owned r rows (λ x q. ground (arith, same x q, same r h)) u m h),
        update_where-In_image owned (settled_by task request i) r rows m h,
      )

  -- The answer that each request gets.
  abbrev pub failed_with : TaskAttempt V → TaskFailureCause → SettlementResult
  failed_with a cause =
      failed_result (record { id = a.id; format = a.format; attempt = a.number; cause = cause })

  unfoldable pub expected : LeasedTask V → SettlementRequest → Row V → SettlementResult
  expected task Task_queue.completed r = completed_result
  expected task (retry delay reason) r =
      if leb r.max_attempts r.attempts
      then failed_with task.attempt attempt_limit_reached
      else retry_scheduled
  expected task (Task_queue.failed reason) r = failed_with task.attempt permanent_rejection

  expected_lem :
      (task : LeasedTask V) (request : SettlementRequest) (i : QueueInput) (r : Row V)
      → settlement_result task.attempt
          (some (settled_by task request i r).status)
          (settlement_parameters request).failure_cause
        ≡ ok (expected task request r)
  unfolding expected settlement_result settled settlement_parameters
  expected_lem task Task_queue.completed i r = refl
  expected_lem task (retry delay reason) i r = ground arith
  expected_lem task (Task_queue.failed reason) i r = refl

  -- On a table with distinct ids and over a connection without faults, a settlement whose delay is
  -- representable and whose lease holds a row is applied to that row, and answers as the request
  -- and the row's attempts say: completed; failed by permanent rejection; or, on a retry, scheduled
  -- again while attempts are left and otherwise failed because their limit is reached.
  pub settlement_by_its_holder :
      (task : LeasedTask V) (request : SettlementRequest) (i : QueueInput) (rows : List (Row V))
      (r : Row V)
      → i.connection.begins ≡ true
      → i.connection.runs ≡ true
      → i.connection.commits ≡ true
      → leb (as_millis (settlement_parameters request).delay) i64_max ≡ true
      → Unique (ids rows)
      → In r rows
      → is_owned task.attempt.id task.lease.lock_token i.clock r ≡ true
      → ((settle task request i rows).0 ≡ ok (expected task request r))
        × In (settled_by task request i r) (settle task request i rows).1
  unfolding settle
  settlement_by_its_holder task request i rows r b n c fits u m h =
      let (answer, inside) = settle_rows_owned task request i rows r u m h in
      let e = expected_lem task request i r in
      let q : (settle task request i rows).0 ≡ ok (expected task request r) =
        ground (arith, b, n, c, fits, answer, e) in
      (
        q,
        subst (In (settled_by task request i r)) (sym (settle_confirmed task request i rows _ q))
            inside,
      )
