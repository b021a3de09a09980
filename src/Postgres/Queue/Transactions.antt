-- ===== src/Postgres/Queue/Transactions.antt =====
-- What a transaction of a queue operation leaves behind, whatever the connection does
-- (cqrs-runtime/src/postgres/task_queue).
use account_management_servi.Base.{
  ℕ, ◌≡◌, ◌⊎◌, inl, inr, List, Text, arith, ok, Result-cases, update_where, ◌==◌, pos, ◌∷◌,
}
use account_management_servi.Time.{Duration, Instant, as_millis}
use account_management_servi.Task.Data.{Json, TaskFormat}
use account_management_servi.Task.Queue.{
  SettlementRequest, LeasedTask, TaskFailure, redelivery_backoff, invalid_retry_delay,
}
use account_management_servi.Postgres.Outbox.{Row, recovered}
use account_management_servi.Postgres.Queue.{
  ClaimInput, QueueInput, claim, claim_rows, settle, settle_rows, recover_loop, recover_expired,
  expired_rows, settlement_parameters, milliseconds,
}

module _ {V : Type 0} where
  pub claim_table :
      (json : Json V) (now : Instant) (f : TaskFormat) (owner : Text) (limit : ℕ) (lease : Duration)
      (i : ClaimInput) (rows : List (Row V))
      → ((claim json now f owner limit lease i rows).1 ≡ rows)
        ⊎ ((claim json now f owner limit lease i rows).1
            ≡ (claim_rows json f owner limit (as_millis lease) i rows).0)
  unfolding claim
  claim_table json now f owner limit lease i rows = ground arith

  pub settle_table :
      (task : LeasedTask V) (request : SettlementRequest) (i : QueueInput) (rows : List (Row V))
      → let p = settlement_parameters request in
        ((settle task request i rows).1 ≡ rows)
        ⊎ ((settle task request i rows).1 ≡ (settle_rows task p (as_millis p.delay) i rows).0)
  unfolding settle
  settle_table task request i rows = ground arith

  recover_table_of :
      (jittered : ℕ → ℕ → Duration) (limit : ℕ) (i : QueueInput) (rows rows' : List (Row V))
      (failures : List TaskFailure)
      → recover_loop jittered i.stamp (expired_rows limit i rows) rows ≡ ok (failures, rows')
      → ((recover_expired jittered limit i rows).1 ≡ rows)
        ⊎ ((recover_expired jittered limit i rows).1 ≡ rows')
  unfolding recover_expired
  recover_table_of jittered limit i rows rows' failures h = ground arith

  pub recover_table :
      (jittered : ℕ → ℕ → Duration) (limit : ℕ) (i : QueueInput) (rows : List (Row V))
      → ((recover_expired jittered limit i rows).1 ≡ rows)
        ⊎ ((failures : List TaskFailure) × (rows' : List (Row V)) × (recover_loop jittered i.stamp
                (expired_rows limit i rows)
                rows
              ≡ ok (failures, rows'))
            × ((recover_expired jittered limit i rows).1 ≡ rows'))
  unfolding recover_expired
  recover_table jittered limit i rows =
      elim (Result-cases (recover_loop jittered i.stamp (expired_rows limit i rows) rows)) [
        | inl (e, q) ↦ inl (ground (arith, q))
        | inr (r, q) ↦ elim (recover_table_of jittered limit i rows r.1 r.0 q) [
          | inl a ↦ inl a
          | inr b ↦ inr (r.0, r.1, q, b)
        ]
      ]

  -- The table that one round of the recovery loop hands to the next.
  abbrev pub recover_one : ℕ → ℕ → Row V → List (Row V) → List (Row V)
  recover_one stamp delay_ms r rows =
      update_where (λ x. x.id == r.id) (recovered stamp delay_ms) rows

  -- A loop that succeeds has recovered its first row and then the others.
  pub recover_loop-cons :
      (jittered : ℕ → ℕ → Duration) (stamp : ℕ) (r : Row V) (rs rows rows' : List (Row V))
      (failures : List TaskFailure)
      → recover_loop jittered stamp (r ∷ rs) rows ≡ ok (failures, rows')
      → (delay_ms : ℕ) × (fs : List TaskFailure) × (recover_loop jittered stamp rs
            (recover_one stamp delay_ms r rows)
          ≡ ok (fs, rows'))
  unfolding recover_loop
  recover_loop-cons jittered stamp r rs rows rows' failures q =
      elim (Result-cases
        (milliseconds (redelivery_backoff (jittered r.id) (pos r.attempts)) invalid_retry_delay)) [
          | inl (e, p) ↦ absurd (ground (arith, p))
          | inr (ms, p) ↦
              elim (Result-cases (recover_loop jittered stamp rs (recover_one stamp ms r rows))) [
                | inl (e, p') ↦ absurd (ground (arith, p, p'))
                | inr (x, p') ↦ (ms, x.0, ground (arith, p, p'))
              ]
        ]
