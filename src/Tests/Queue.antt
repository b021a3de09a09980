-- ===== src/Tests/Queue.antt =====
-- The theorems on the queue at a table with one waiting row and one leased row.
use account_management_servi.Base.{
  ◌≡◌, refl, inl, inr, true, Bool, List, [], ◌∷◌, map, text, ok, leb, All, In, elem, where_true,
  update_where, sort_by, insert_by, text_eq, arith, pos,
}
use account_management_servi.Task.Data.{format_eq, new_attempt, validate_payload, validate_metadata}
use account_management_servi.Task.Queue as Task_queue
use account_management_servi.Task.Queue.{
  LeasedTask, SettlementRequest, SettlementResult, completed_result, retry_scheduled,
  ownership_lost, TaskProcessingError, LeaseRecoveryReport, redelivery_backoff, redelivery_base,
}
use account_management_servi.Time.{from_secs, as_millis, i64_max}
use account_management_servi.Postgres.Outbox.{
  Checks, is_owned, settled, is_ready, claimed, is_expired, recovered,
}
use account_management_servi.Postgres.Queue.{
  claim, claim_rows, select_ids, into_claimed_task, into_claimed_tasks, settle, settle_rows,
  settlement_parameters, settlement_result, recover_expired, recover_loop, expired_rows,
  into_failure,
}
use account_management_servi.Postgres.Queue.Operations.{
  Operation, claims, settles, recovers, requeues, after, after_all, work, Unique, ids,
  after_all-work,
}
use account_management_servi.Postgres.Queue.Integrity.{after_all-Checks}
use account_management_servi.Postgres.Queue.Fencing.{
  Lost, IsRefused, IsFresh, stale_settlement, settled_once,
}
use account_management_servi.Postgres.Queue.Leases.{IsForeign, lease_is_exclusive}
use account_management_servi.Postgres.Queue.Answers.{expected, settled_by, settlement_by_its_holder}
use account_management_servi.Tests.Samples.{
  json, sample_format, leased, rows, early, late, claim_input, holder,
}

-- A claim, a settlement that is late, a recovery and a restart.
abbrev operations : List (Operation Bool)
operations =
    claims 0 sample_format (text "v") 5 (from_secs 60) claim_input
    ∷ settles holder Task_queue.completed late
    ∷ recovers (λ id n. from_secs n) 32 late
    ∷ requeues 6_000 2
    ∷ []

unique : Unique (ids rows)
unfolding elem
unique = (refl, (refl, tt))

rows-Checks : All (Checks json) rows
rows-Checks = (ground arith, (ground arith, tt))

after_all-Checks_example :
    All (Checks json) (after_all json operations rows)
    × Unique (ids (after_all json operations rows))
after_all-Checks_example = after_all-Checks json operations rows unique rows-Checks

after_all-work_example : map work (after_all json operations rows) ≡ map work rows
after_all-work_example = after_all-work json operations rows

lost : Lost holder late.clock rows
lost = (
  λ h. absurd (ground (arith, h.same_id)),
  (λ h. absurd (ground (arith, h.lasts, h.not_over)), tt),
)

stale_settlement_example : IsRefused (settle holder Task_queue.completed late rows) rows
stale_settlement_example = stale_settlement holder Task_queue.completed late rows lost

-- The holder asks for a retry, the row is claimed again, and the holder settles once more.
abbrev retried : SettlementRequest
retried = Task_queue.retry 0 (text "busy")

first_answer : (settle holder retried early rows).0 ≡ ok retry_scheduled
unfolding settle settle_rows settlement_parameters settlement_result is_owned settled where_true
    update_where
first_answer = refl

abbrev second_claim : Operation Bool
second_claim = claims 0 sample_format (text "v") 5 (from_secs 60) claim_input

other_token : IsFresh 55 second_claim
unfolding IsFresh
other_token id e = absurd (omega (arith, e))

settled_once_example :
    let rows' = after_all json (second_claim ∷ []) (settle holder retried early rows).1 in
    IsRefused (settle holder Task_queue.completed early rows') rows'
settled_once_example =
    settled_once json holder retried Task_queue.completed early early (second_claim ∷ []) rows
      retry_scheduled first_answer (omega arith) (other_token, tt)

owned : is_owned holder.attempt.id holder.lease.lock_token early.clock leased ≡ true
unfolding is_owned
owned = refl

delay_fits : leb (as_millis (settlement_parameters Task_queue.completed).delay) i64_max ≡ true
unfolding settlement_parameters
delay_fits = refl

settlement_by_its_holder_example :
    ((settle holder Task_queue.completed early rows).0
      ≡ ok (expected holder Task_queue.completed leased))
    × In
        (settled_by holder Task_queue.completed early leased)
        (settle holder Task_queue.completed early rows).1
settlement_by_its_holder_example =
    settlement_by_its_holder holder Task_queue.completed early rows leased refl refl refl delay_fits
      unique (inr (inl refl)) owned

abbrev early_recovery : Operation Bool
early_recovery = recovers (λ id n. from_secs n) 32 early

foreign : IsForeign early_recovery leased
unfolding IsForeign
foreign u e = ground (arith, e)

lease_is_exclusive_example : In leased (after json early_recovery rows)
lease_is_exclusive_example =
    lease_is_exclusive json early_recovery rows leased unique (inr (inl refl)) refl foreign

abbrev taken : LeasedTask Bool
taken = record {
  attempt = record {
    id = 1;
    format = sample_format;
    payload = true;
    metadata = true;
    number = pos 1;
  };
  lease = record { lock_token = 77; deadline = from_secs 60 };
}

claimed_one :
    (claim json 0 sample_format (text "v") 5 (from_secs 60) claim_input rows).0 ≡ ok (taken ∷ [])
unfolding claim claim_rows select_ids into_claimed_tasks into_claimed_task new_attempt
    validate_payload validate_metadata is_ready claimed elem where_true update_where sort_by
    insert_by format_eq text_eq
claimed_one = refl

abbrev report : LeaseRecoveryReport
report = record { retried_count = 1; failures = [] }

recovered_one : (recover_expired (λ id n. from_secs n) 32 late rows).0 ≡ ok report
unfolding recover_expired recover_loop expired_rows is_expired recovered into_failure
    redelivery_backoff redelivery_base where_true update_where sort_by insert_by
recovered_one = refl
