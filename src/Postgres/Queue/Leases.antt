-- ===== src/Postgres/Queue/Leases.antt =====
-- What may touch a leased row, and when (cqrs-runtime/src/postgres/task_queue).
use account_management_servi.Base.{
  ℕ, ◌≡◌, inl, inr, Bool, true, false, ◌&&◌, List, [], ◌∷◌, Text, arith, All, update_where,
  All-intro, ok, ap, sym, In, elem, Bool-cases, ◌==◌, sort_by-In, take-In, where_true-In, ◌≢◌,
}
use account_management_servi.Time.{Duration}
use account_management_servi.Task.Data.{Json, TaskFormat}
use account_management_servi.Task.Queue.{LeasedTask, TaskFailure}
use account_management_servi.Postgres.Outbox.{
  Row, processing, is_ready, is_owned, is_expired, is_failed,
}
use account_management_servi.Postgres.Queue.{
  ClaimInput, QueueInput, SettlementParameters, claim_rows, settle_rows, recover_loop, expired_rows,
  requeue_failed, select_ids, sooner, ends_sooner,
}
use account_management_servi.Postgres.Queue.Transactions.{
  claim_table, settle_table, recover_table, recover_loop-cons,
}
use account_management_servi.Postgres.Queue.Operations.{
  Operation, claims, settles, recovers, requeues, after, Unique, ids, row_of_id,
}
use account_management_servi.Postgres.Queue.Holding.{Holds, IsRunning, not_owned, not_expired}
use account_management_servi.Postgres.Queue.Integrity.{selected, and_first}
use mathlib.Core.Path.{subst}

update_where-In :
    {A : Type 0} (p : A → Bool) (f : A → A) (a : A) (xs : List A)
    → In a xs
    → p a ≡ false
    → In a (update_where p f xs)
unfolding update_where
update_where-In p f a [] m h = m
update_where-In p f a (x ∷ xs) (inl e) h = inl (ground (arith, e, h, subst (λ y. p y ≡ false) e h))
update_where-In p f a (x ∷ xs) (inr m) h = inr (update_where-In p f a xs m h)

module _ {V : Type 0} where
  -- The operation has no claim on the row: it settles another lease or one that has run out, or it
  -- recovers before the row's lease ends.
  unfoldable pub IsForeign : Operation V → Row V → Type 0
  IsForeign (claims now f owner limit lease i) r = Unit
  IsForeign (settles task request i) r = Holds task i.clock r → ⊥
  IsForeign (recovers jittered limit i) r = IsRunning i.stamp r
  IsForeign (requeues stamp id) r = Unit

  not_ready :
      (f : TaskFormat) (stamp : ℕ) (r : Row V) → r.status ≡ processing → is_ready f stamp r ≢ true
  unfolding is_ready
  not_ready f stamp r h q = ground (arith, h, q)

  not_failed :
      (id : ℕ) (r : Row V) → r.status ≡ processing → ((r.id == id) && is_failed r.status) ≡ false
  not_failed id r h = ground (arith, h)

  settle_rows-kept :
      (task : LeasedTask V) (p : SettlementParameters) (delay_ms : ℕ) (i : QueueInput)
      (rows : List (Row V)) (r : Row V)
      → In r rows
      → is_owned task.attempt.id task.lease.lock_token i.clock r ≡ false
      → In r (settle_rows task p delay_ms i rows).0
  unfolding settle_rows
  settle_rows-kept task p delay_ms i rows r m h = update_where-In _ _ r rows m h

  claim_rows-kept :
      (json : Json V) (f : TaskFormat) (owner : Text) (limit lease_ms : ℕ) (i : ClaimInput)
      (rows : List (Row V)) (r : Row V)
      → Unique (ids rows)
      → In r rows
      → r.status ≡ processing
      → In r (claim_rows json f owner limit lease_ms i rows).0
  unfolding claim_rows
  claim_rows-kept json f owner limit lease_ms i rows r u m h =
      let chosen = select_ids (is_ready f i.stamp) sooner limit i.locked rows in
      elim (Bool-cases (elem r.id chosen)) [
        | inl e ↦ absurd (
            not_ready f i.stamp r h
              (and_first _ _ (selected (is_ready f i.stamp) sooner limit i.locked rows r u m e)))
        | inr e ↦ update_where-In _ _ r rows m e
      ]

  -- The rows that recovery loops over have other ids.
  recover_loop-kept :
      (jittered : ℕ → ℕ → Duration) (stamp : ℕ) (selected rows rows' : List (Row V))
      (failures : List TaskFailure) (r : Row V)
      → recover_loop jittered stamp selected rows ≡ ok (failures, rows')
      → All (λ x. (r.id == x.id) ≡ false) selected
      → In r rows
      → In r rows'
  unfolding recover_loop
  recover_loop-kept jittered stamp [] rows rows' failures r q h m =
      subst (In r) (ground (arith, q)) m
  recover_loop-kept jittered stamp (x ∷ xs) rows rows' failures r q h m =
      let (ms, fs, q') = recover_loop-cons jittered stamp x xs rows rows' failures q in
      recover_loop-kept jittered stamp xs _ rows' fs r q' h.1 (update_where-In _ _ r rows m h.0)

  expired_rows-In :
      (limit : ℕ) (i : QueueInput) (rows : List (Row V)) (x : Row V)
      → In x (expired_rows limit i rows)
      → In x rows × (is_expired i.stamp x ≡ true)
  unfolding expired_rows
  expired_rows-In limit i rows x m =
      let (a, b) = where_true-In _ x rows (sort_by-In ends_sooner x _ (take-In limit x _ m)) in
      (a, and_first _ _ b)

  expired_rows-other :
      (limit : ℕ) (i : QueueInput) (rows : List (Row V)) (r : Row V)
      → Unique (ids rows)
      → In r rows
      → is_expired i.stamp r ≡ false
      → All (λ x. (r.id == x.id) ≡ false) (expired_rows limit i rows)
  expired_rows-other limit i rows r u m h =
      All-intro (λ x. (r.id == x.id) ≡ false) (expired_rows limit i rows)
        (λ x n.
          let (inside, e) = expired_rows-In limit i rows x n in
          elim (Bool-cases (r.id == x.id)) [
            | inl same ↦ absurd (
                ground (
                  arith,
                  h,
                  e,
                  ap (is_expired i.stamp) (row_of_id r x rows u m inside (ground (arith, same))),
                ))
            | inr other ↦ other
          ])

  -- On a table with distinct ids a processing row is left exactly as it is by every claim and every
  -- restart, by every settlement whose lease does not hold it, and by every recovery before its
  -- lease has ended, whatever their connections do. A lease holds a row if the row has the task's ID and
  -- the lease's token, is processing, and its time is not over.
  pub lease_is_exclusive :
      (json : Json V) (o : Operation V) (rows : List (Row V)) (r : Row V)
      → Unique (ids rows)
      → In r rows
      → r.status ≡ processing
      → IsForeign o r
      → In r (after json o rows)
  unfolding after requeue_failed IsForeign
  lease_is_exclusive json (claims now f owner limit lease i) rows r u m h n =
      elim (claim_table json now f owner limit lease i rows) [
        | inl e ↦ subst (In r) (sym e) m
        | inr e ↦ subst (In r) (sym e) (claim_rows-kept json f owner limit _ i rows r u m h)
      ]
  lease_is_exclusive json (settles task request i) rows r u m h n =
      elim (settle_table task request i rows) [
        | inl e ↦ subst (In r) (sym e) m
        | inr e ↦
            subst (In r) (sym e) (settle_rows-kept task _ _ i rows r m (not_owned task i.clock r n))
      ]
  lease_is_exclusive json (recovers jittered limit i) rows r u m h n =
      elim (recover_table jittered limit i rows) [
        | inl e ↦ subst (In r) (sym e) m
        | inr (fs, rows', q, e) ↦ subst (In r) (sym e) (
            recover_loop-kept jittered i.stamp (expired_rows limit i rows) rows rows' fs r q
              (expired_rows-other limit i rows r u m (not_expired i.stamp r n)) m)
      ]
  lease_is_exclusive json (requeues stamp id) rows r u m h n =
      update_where-In _ _ r rows m (not_failed id r h)
