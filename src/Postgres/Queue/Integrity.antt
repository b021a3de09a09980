-- ===== src/Postgres/Queue/Integrity.antt =====
-- The CHECK constraints and the primary key of the table under every queue operation
-- (cqrs-runtime/src/postgres/task_queue).
use account_management_servi.Base.{
  ℕ, ◌≡◌, sym, Bool, true, not, ◌&&◌, List, [], ◌∷◌, Text, arith, All, update_where-All,
  update_where-All_between, elem, ok, inl, inr, In, All-intro, All-In, where_true-In, sort_by-In,
  take-In, elem-map,
}
use account_management_servi.Time.{Duration}
use account_management_servi.Task.Data.{Json, TaskFormat}
use account_management_servi.Task.Queue.{LeasedTask, TaskFailure}
use account_management_servi.Postgres.Outbox.{Row, Checks, is_ready}
use account_management_servi.Postgres.Outbox.Rows.{
  claimed-Checks, settled-Checks, recovered-Checks, restarted-Checks,
}
use account_management_servi.Postgres.Queue.{
  ClaimInput, QueueInput, claim_rows, settle_rows, recover_loop, expired_rows, requeue_failed,
  select_ids, SettlementParameters, stored_error, sooner,
}
use account_management_servi.Postgres.Queue.Transactions.{
  claim_table, settle_table, recover_table, recover_loop-cons,
}
use account_management_servi.Postgres.Queue.Operations.{
  Operation, claims, settles, recovers, requeues, after, after_all, Unique, ids, row_of_id,
  after-ids,
}
use mathlib.Core.Path.{subst}

pub and_first : (a b : Bool) → (a && b) ≡ true → a ≡ true
and_first a b h = ground (arith, h)

module _ {V : Type 0} where
  -- A row whose id a statement selected passes the statement's test and is not locked elsewhere.
  pub selected :
      (test : Row V → Bool) (before : Row V → Row V → Bool) (limit : ℕ) (locked : ℕ → Bool)
      (rows : List (Row V)) (r : Row V)
      → Unique (ids rows)
      → In r rows
      → elem r.id (select_ids test before limit locked rows) ≡ true
      → (test r && not (locked r.id)) ≡ true
  unfolding select_ids
  selected test before limit locked rows r u m h =
      let p = λ (x : Row V). test x && not (locked x.id) in
      let (x, (mx, e)) = elem-map (λ (x : Row V). x.id) r.id _ h in
      let (inside, passes) =
        where_true-In p x rows (sort_by-In before x _ (take-In limit x _ mx)) in
      subst (λ y. p y ≡ true) (row_of_id x r rows u inside m e) passes

module _ {V : Type 0} (json : Json V) where
  claim_rows-Checks :
      (f : TaskFormat) (owner : Text) (limit lease_ms : ℕ) (i : ClaimInput) (rows : List (Row V))
      → Unique (ids rows)
      → All (Checks json) rows
      → All (Checks json) (claim_rows json f owner limit lease_ms i rows).0
  unfolding claim_rows
  claim_rows-Checks f owner limit lease_ms i rows u h =
      update_where-All_between (λ r. Checks json r × In r rows) (Checks json) _ _ rows
        (λ r c e.
          claimed-Checks json f i.stamp owner (i.token r.id) _ r c.0
            (and_first _ _ (selected (is_ready f i.stamp) sooner limit i.locked rows r u c.1 e)))
        (λ r c _. c.0)
        (All-intro (λ r. Checks json r × In r rows) rows
          (λ r m. (All-In (Checks json) r rows h m, m)))

  settle_rows-Checks :
      (task : LeasedTask V) (p : SettlementParameters) (delay_ms : ℕ) (i : QueueInput)
      (rows : List (Row V))
      → All (Checks json) rows
      → All (Checks json) (settle_rows task p delay_ms i rows).0
  unfolding settle_rows
  settle_rows-Checks task p delay_ms i rows h =
      update_where-All (Checks json) _ _ rows
        (λ r c _. settled-Checks json i.stamp p.status delay_ms (stored_error p.last_error) r c) h

  recover_loop-Checks :
      (jittered : ℕ → ℕ → Duration) (stamp : ℕ) (selected rows rows' : List (Row V))
      (failures : List TaskFailure)
      → recover_loop jittered stamp selected rows ≡ ok (failures, rows')
      → All (Checks json) rows
      → All (Checks json) rows'
  unfolding recover_loop
  recover_loop-Checks jittered stamp [] rows rows' failures q h =
      subst (All (Checks json)) (ground (arith, q)) h
  recover_loop-Checks jittered stamp (r ∷ rs) rows rows' failures q h =
      let (ms, fs, q') = recover_loop-cons jittered stamp r rs rows rows' failures q in
      recover_loop-Checks jittered stamp rs _ rows' fs q'
        (update_where-All (Checks json) _ _ rows (λ x c _. recovered-Checks json stamp ms x c) h)

  -- One operation, whatever its connection does.
  pub after-Checks :
      (o : Operation V) (rows : List (Row V))
      → Unique (ids rows)
      → All (Checks json) rows
      → All (Checks json) (after json o rows)
  unfolding after requeue_failed
  after-Checks (claims now f owner limit lease i) rows u h =
      elim (claim_table json now f owner limit lease i rows) [
        | inl e ↦ subst (All (Checks json)) (sym e) h
        | inr e ↦ subst (All (Checks json)) (sym e) (claim_rows-Checks f owner limit _ i rows u h)
      ]
  after-Checks (settles task request i) rows u h = elim (settle_table task request i rows) [
    | inl e ↦ subst (All (Checks json)) (sym e) h
    | inr e ↦ subst (All (Checks json)) (sym e) (settle_rows-Checks task _ _ i rows h)
  ]
  after-Checks (recovers jittered limit i) rows u h = elim (recover_table jittered limit i rows) [
    | inl e ↦ subst (All (Checks json)) (sym e) h
    | inr (fs, rows', q, e) ↦
        subst (All (Checks json)) (sym e)
          (recover_loop-Checks jittered i.stamp (expired_rows limit i rows) rows rows' fs q h)
  ]
  after-Checks (requeues stamp id) rows u h =
      update_where-All (Checks json) _ _ rows (λ r c _. restarted-Checks json stamp r c) h

  -- From a table whose rows meet the CHECK constraints and whose ids are distinct, any sequence of
  -- claims, settlements, recoveries and restarts leads to such a table again, whatever their
  -- arguments, times, tokens, locks and connections are. So PostgreSQL refuses none of their
  -- statements for those constraints.
  pub after_all-Checks :
      (os : List (Operation V)) (rows : List (Row V))
      → Unique (ids rows)
      → All (Checks json) rows
      → All (Checks json) (after_all json os rows) × Unique (ids (after_all json os rows))
  unfolding after_all
  after_all-Checks [] rows u h = (h, u)
  after_all-Checks (o ∷ os) rows u h =
      after_all-Checks os (after json o rows) (subst Unique (sym (after-ids json o rows)) u)
        (after-Checks o rows u h)
