-- ===== src/Postgres/Queue/Fencing.antt =====
-- Settlements of a lease that has ended (cqrs-runtime/src/postgres/task_queue/settlement.rs).
use account_management_servi.Base.{
  ℕ, ◌≤◌, ◌≡◌, refl, ◌⊎◌, Bool, false, Option, none, List, [], ◌∷◌, map, Text, arith, All,
  where_true, update_where, inl, inr, some, ◌≢◌, update_where-All_between, All-intro, Result, ok,
  err, sym,
}
use account_management_servi.Time.{as_millis, Duration}
use account_management_servi.Task.Data.{Json}
use account_management_servi.Task.Queue.{
  SettlementRequest, LeasedTask, SettlementResult, ownership_lost, TaskProcessingError, TaskFailure,
}
use account_management_servi.Postgres.Outbox.{
  Row, is_owned, settled, Requested, to_pending, to_completed, to_failed, claimed, recovered,
  restarted,
}
use account_management_servi.Postgres.Queue.{
  QueueInput, settle, settle_rows, settlement_parameters, SettlementParameters, stored_error,
  settlement_result, first_status, claim_rows, recover_loop, expired_rows, requeue_failed,
}
use account_management_servi.Postgres.Queue.Transactions.{
  claim_table, settle_table, recover_table, recover_loop-cons,
}
use account_management_servi.Postgres.Queue.Operations.{
  Operation, claims, settles, recovers, requeues, after, after_all,
}
use account_management_servi.Postgres.Queue.Holding.{Holds, not_owned, owned_or_not, Holds-earlier}
use mathlib.Core.Path.{subst}

module _ {V : Type 0} where
  -- No row of the table is held by the lease.
  abbrev pub Lost : LeasedTask V → ℕ → List (Row V) → Type 0
  Lost task clock rows = All (λ r. Holds task clock r → ⊥) rows

  -- A settlement had no effect: the table is as before, and the answer is a lost ownership or an error.
  abbrev pub IsRefused :
      Result TaskProcessingError SettlementResult × List (Row V) → List (Row V) → Type 0
  IsRefused x rows =
      (x.1 ≡ rows) × ((x.0 ≡ ok ownership_lost) ⊎ ((e : TaskProcessingError) × (x.0 ≡ err e)))

  update_where-none :
      (p : Row V → Bool) (f : Row V → Row V) (rows : List (Row V))
      → All (λ r. p r ≡ false) rows
      → (update_where p f rows ≡ rows) × (where_true p rows ≡ [])
  unfolding update_where where_true
  update_where-none p f [] h = (refl, refl)
  update_where-none p f (r ∷ rs) h = ground (arith, h.0, update_where-none p f rs h.1)

  unowned_rows :
      (task : LeasedTask V) (clock : ℕ) (rows : List (Row V))
      → Lost task clock rows
      → All (λ r. is_owned task.attempt.id task.lease.lock_token clock r ≡ false) rows
  unowned_rows task clock [] h = tt
  unowned_rows task clock (r ∷ rs) h = (not_owned task clock r h.0, unowned_rows task clock rs h.1)

  settle_rows_unowned :
      (task : LeasedTask V) (p : SettlementParameters) (delay_ms : ℕ) (i : QueueInput)
      (rows : List (Row V))
      → Lost task i.clock rows
      → settle_rows task p delay_ms i rows ≡ (rows, none)
  unfolding settle_rows
  settle_rows_unowned task p delay_ms i rows h =
      let owned = λ (r : Row V). is_owned task.attempt.id task.lease.lock_token i.clock r in
      let set = λ (r : Row V). settled i.stamp p.status delay_ms (stored_error p.last_error) r in
      let (a, b) = update_where-none owned set rows (unowned_rows task i.clock rows h) in
      λ k. (a k, first_status (map set (b k)))

  -- A settlement by a lease that holds no row of the table changes nothing, and answers that the
  -- ownership is lost or with an error, whatever it asks for. A lease holds a row if the row has the
  -- task's ID and the lease's token, is processing, and its time is not over: a token that was replaced
  -- or cleared is enough to lose it.
  pub stale_settlement :
      (task : LeasedTask V) (request : SettlementRequest) (i : QueueInput) (rows : List (Row V))
      → Lost task i.clock rows
      → IsRefused (settle task request i rows) rows
  unfolding settle settlement_result
  stale_settlement task request i rows h = ground (
    arith,
    settle_rows_unowned task (settlement_parameters request)
        (as_millis (settlement_parameters request).delay) i rows h,
  )

  pub settle_confirmed :
      (task : LeasedTask V) (request : SettlementRequest) (i : QueueInput) (rows : List (Row V))
      (x : SettlementResult)
      → (settle task request i rows).0 ≡ ok x
      → let p = settlement_parameters request in
        (settle task request i rows).1 ≡ (settle_rows task p (as_millis p.delay) i rows).0
  unfolding settle
  settle_confirmed task request i rows x q = ground (arith, q)

  untokened :
      (task : LeasedTask V) (clock : ℕ) (r : Row V)
      → r.lock_token ≢ some task.lease.lock_token
      → Holds task clock r
      → ⊥
  untokened task clock r n h = n h.same_token

  settled_without :
      (token stamp : ℕ) (q : Requested) (delay_ms : ℕ) (error : Option Text) (r : Row V)
      → (settled stamp q delay_ms error r).lock_token ≢ some token
  unfolding settled
  settled_without token stamp to_completed delay_ms error r e = absurd (ground (arith, e))
  settled_without token stamp to_pending delay_ms error r e = absurd (ground (arith, e))
  settled_without token stamp to_failed delay_ms error r e = absurd (ground (arith, e))

  -- After the statement no row is under the lease.
  settle_rows-Lost :
      (task : LeasedTask V) (p : SettlementParameters) (delay_ms : ℕ) (i : QueueInput)
      (rows : List (Row V)) (clock : ℕ)
      → i.clock ≤ clock
      → Lost task clock (settle_rows task p delay_ms i rows).0
  unfolding settle_rows
  settle_rows-Lost task p delay_ms i rows clock le =
      update_where-All_between (λ r. Unit {0}) (λ r. Holds task clock r → ⊥) _ _ rows
        (λ r _ _.
          untokened task clock _
            (settled_without task.lease.lock_token i.stamp p.status delay_ms _ r))
        (λ r _ u h.
          absurd (owned_or_not task i.clock r u (Holds-earlier task i.clock clock r le h)))
        (All-intro (λ r. Unit {0}) rows (λ r m. tt))

  -- Rows that an operation changes carry no token or another one.
  updated-Lost :
      (task : LeasedTask V) (clock : ℕ) (p : Row V → Bool) (f : Row V → Row V) (rows : List (Row V))
      → ((r : Row V) → (f r).lock_token ≢ some task.lease.lock_token)
      → Lost task clock rows
      → Lost task clock (update_where p f rows)
  updated-Lost task clock p f rows n lost =
      update_where-All_between (λ r. Holds task clock r → ⊥) (λ r. Holds task clock r → ⊥) p f rows
        (λ r _ _. untokened task clock (f r) (n r)) (λ r h _. h) lost

  recover_loop-Lost :
      (task : LeasedTask V) (clock : ℕ) (jittered : ℕ → ℕ → Duration) (stamp : ℕ)
      (selected rows rows' : List (Row V)) (failures : List TaskFailure)
      → recover_loop jittered stamp selected rows ≡ ok (failures, rows')
      → Lost task clock rows
      → Lost task clock rows'
  unfolding recover_loop recovered
  recover_loop-Lost task clock jittered stamp [] rows rows' failures q lost =
      subst (Lost task clock) (ground (arith, q)) lost
  recover_loop-Lost task clock jittered stamp (r ∷ rs) rows rows' failures q lost =
      let (ms, fs, q') = recover_loop-cons jittered stamp r rs rows rows' failures q in
      recover_loop-Lost task clock jittered stamp rs _ rows' fs q' (
        updated-Lost task clock _ (recovered stamp ms) rows (λ x e. absurd (ground (arith, e)))
          lost)

  -- No claim issues the token again.
  unfoldable pub IsFresh : ℕ → Operation V → Type 0
  IsFresh token (claims now f owner limit lease i) = (id : ℕ) → i.token id ≢ token
  IsFresh token (settles task request i) = Unit
  IsFresh token (recovers jittered limit i) = Unit
  IsFresh token (requeues stamp id) = Unit

  after-Lost :
      (json : Json V) (task : LeasedTask V) (clock : ℕ) (o : Operation V) (rows : List (Row V))
      → IsFresh task.lease.lock_token o
      → Lost task clock rows
      → Lost task clock (after json o rows)
  unfolding after IsFresh claim_rows settle_rows requeue_failed claimed restarted
  after-Lost json task clock (claims now f owner limit lease i) rows fresh lost =
      elim (claim_table json now f owner limit lease i rows) [
        | inl e ↦ subst (Lost task clock) (sym e) lost
        | inr e ↦
            subst (Lost task clock) (sym e)
              (updated-Lost task clock _ _ rows (λ r e. fresh r.id (ground (arith, e))) lost)
      ]
  after-Lost json task clock (settles other request i) rows fresh lost =
      elim (settle_table other request i rows) [
        | inl e ↦ subst (Lost task clock) (sym e) lost
        | inr e ↦ subst (Lost task clock) (sym e) (
            updated-Lost task clock _ _ rows
              (λ r.
                settled_without task.lease.lock_token i.stamp (settlement_parameters request).status
                  _ _ r)
              lost)
      ]
  after-Lost json task clock (recovers jittered limit i) rows fresh lost =
      elim (recover_table jittered limit i rows) [
        | inl e ↦ subst (Lost task clock) (sym e) lost
        | inr (fs, rows', q, e) ↦ subst (Lost task clock) (sym e) (
            recover_loop-Lost task clock jittered i.stamp (expired_rows limit i rows) rows rows' fs
              q lost)
      ]
  after-Lost json task clock (requeues stamp id) rows fresh lost =
      updated-Lost task clock _ (restarted stamp) rows (λ x e. absurd (ground (arith, e))) lost

  after_all-Lost :
      (json : Json V) (task : LeasedTask V) (clock : ℕ) (os : List (Operation V))
      (rows : List (Row V))
      → All (IsFresh task.lease.lock_token) os
      → Lost task clock rows
      → Lost task clock (after_all json os rows)
  unfolding after_all
  after_all-Lost json task clock [] rows fresh lost = lost
  after_all-Lost json task clock (o ∷ os) rows fresh lost =
      after_all-Lost json task clock os (after json o rows) fresh.1
        (after-Lost json task clock o rows fresh.0 lost)

  -- Once a settlement was answered without an error, and whatever claims, settlements, recoveries and
  -- restarts come in between, every settlement by the same lease at the same or a later database time,
  -- whatever it asks for, changes nothing and answers that the ownership is lost or with an error: the
  -- task may be claimed again by then, provided that no claim issues the token of the lease again.
  pub settled_once :
      (json : Json V) (task : LeasedTask V) (first second : SettlementRequest) (i j : QueueInput)
      (between : List (Operation V)) (rows : List (Row V)) (x : SettlementResult)
      → (settle task first i rows).0 ≡ ok x
      → i.clock ≤ j.clock
      → All (IsFresh task.lease.lock_token) between
      → let rows' = after_all json between (settle task first i rows).1 in
        IsRefused (settle task second j rows') rows'
  settled_once json task first second i j between rows x q le fresh =
      let p = settlement_parameters first in
      stale_settlement task second j _ (
        after_all-Lost json task j.clock between _ fresh (
          subst (Lost task j.clock) (sym (settle_confirmed task first i rows x q))
            (settle_rows-Lost task p (as_millis p.delay) i rows j.clock le)))
