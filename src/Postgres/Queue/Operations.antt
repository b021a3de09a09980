-- ===== src/Postgres/Queue/Operations.antt =====
-- Sequences of queue operations, each in its own transaction (cqrs-runtime/src/postgres/task_queue), and
-- what a reader of the table may rely on between them: the ids and the work itself.
use account_management_servi.Base.{
  ℕ, ◌≡◌, refl, sym, ap, ◌∙◌, Bool, true, false, List, [], ◌∷◌, map, Text, arith, update_where, ok,
  inl, inr, elem, In, Option,
}
use account_management_servi.Time.{Duration, Instant}
use account_management_servi.Task.Data.{Json, TaskFormat}
use account_management_servi.Task.Queue.{SettlementRequest, LeasedTask, TaskFailure}
use account_management_servi.Postgres.Outbox.{
  Requested, to_completed, to_pending, to_failed, Row, claimed, settled, recovered, restarted,
}
use account_management_servi.Postgres.Queue.{
  ClaimInput, QueueInput, claim, claim_rows, settle, settle_rows, recover_loop, recover_expired,
  expired_rows, requeue_failed, SettlementParameters,
}
use account_management_servi.Postgres.Queue.Transactions.{
  claim_table, settle_table, recover_table, recover_loop-cons,
}
use mathlib.Core.List.{map-map}

-- What a queue operation asks for, with what its environment does.
pub data Operation (V : Type 0) : Type 0 where
  claims :
      (now : Instant) (f : TaskFormat) (owner : Text) (limit : ℕ) (lease : Duration)
      (i : ClaimInput)
      → Operation V
  settles : (task : LeasedTask V) (request : SettlementRequest) (i : QueueInput) → Operation V
  recovers : (jittered : ℕ → ℕ → Duration) (limit : ℕ) (i : QueueInput) → Operation V
  requeues : (stamp id : ℕ) → Operation V

-- The table after one operation, and after several.
unfoldable pub after : {V : Type 0} → Json V → Operation V → List (Row V) → List (Row V)
after json (claims now f owner limit lease i) rows = (claim json now f owner limit lease i rows).1
after json (settles task request i) rows = (settle task request i rows).1
after json (recovers jittered limit i) rows = (recover_expired jittered limit i rows).1
after json (requeues stamp id) rows = requeue_failed stamp id rows

unfoldable pub after_all : {V : Type 0} → Json V → List (Operation V) → List (Row V) → List (Row V)
after_all json [] rows = rows
after_all json (o ∷ os) rows = after_all json os (after json o rows)

-- The part of a row that its command wrote and that no delivery may change.
pub record Work (V : Type 0) : Type 0 where
  pub id : ℕ
  pub aggregate_type : Text
  pub aggregate_id : Text
  pub aggregate_sequence : ℕ
  pub format : TaskFormat
  pub payload : V
  pub metadata : V
  pub created_at : ℕ
  pub max_attempts : ℕ

-- The primary key: no two rows have one id.
abbrev pub Unique : List ℕ → Type 0
Unique [] = Unit
Unique (n ∷ ns) = (elem n ns ≡ false) × Unique ns

module _ {V : Type 0} where
  abbrev pub work : Row V → Work V
  work r = record {
    id = r.id;
    aggregate_type = r.aggregate_type;
    aggregate_id = r.aggregate_id;
    aggregate_sequence = r.aggregate_sequence;
    format = r.format;
    payload = r.payload;
    metadata = r.metadata;
    created_at = r.created_at;
    max_attempts = r.max_attempts;
  }

  update_where-work :
      (p : Row V → Bool) (f : Row V → Row V) (rows : List (Row V))
      → ((r : Row V) → work (f r) ≡ work r)
      → map work (update_where p f rows) ≡ map work rows
  unfolding update_where
  update_where-work p f [] h = refl
  update_where-work p f (r ∷ rs) h = ground (arith, h r, update_where-work p f rs h)

  claim_rows-work :
      (json : Json V) (f : TaskFormat) (owner : Text) (limit lease_ms : ℕ) (i : ClaimInput)
      (rows : List (Row V))
      → map work (claim_rows json f owner limit lease_ms i rows).0 ≡ map work rows
  unfolding claim_rows claimed
  claim_rows-work json f owner limit lease_ms i rows = update_where-work _ _ rows (λ r. refl)

  settled-work :
      (stamp : ℕ) (q : Requested) (delay_ms : ℕ) (error : Option Text) (r : Row V)
      → work (settled stamp q delay_ms error r) ≡ work r
  unfolding settled
  settled-work stamp to_completed delay_ms error r = refl
  settled-work stamp to_pending delay_ms error r = refl
  settled-work stamp to_failed delay_ms error r = refl

  settle_rows-work :
      (task : LeasedTask V) (p : SettlementParameters) (delay_ms : ℕ) (i : QueueInput)
      (rows : List (Row V))
      → map work (settle_rows task p delay_ms i rows).0 ≡ map work rows
  unfolding settle_rows
  settle_rows-work task p delay_ms i rows =
      update_where-work _ _ rows (λ r. settled-work i.stamp p.status delay_ms _ r)

  recover_loop-work :
      (jittered : ℕ → ℕ → Duration) (stamp : ℕ) (selected rows rows' : List (Row V))
      (failures : List TaskFailure)
      → recover_loop jittered stamp selected rows ≡ ok (failures, rows')
      → map work rows' ≡ map work rows
  unfolding recover_loop recovered
  recover_loop-work jittered stamp [] rows rows' failures q = ground (arith, q)
  recover_loop-work jittered stamp (r ∷ rs) rows rows' failures q =
      let (ms, fs, q') = recover_loop-cons jittered stamp r rs rows rows' failures q in
      recover_loop-work jittered stamp rs _ rows' fs q'
      ∙ update_where-work _ (recovered stamp ms) rows (λ x. refl)

  -- Whatever the connection does, an operation changes no id and nothing of the work that a command
  -- asked for: it neither adds nor drops nor reorders rows.
  pub after-work :
      (json : Json V) (o : Operation V) (rows : List (Row V))
      → map work (after json o rows) ≡ map work rows
  unfolding after requeue_failed restarted
  after-work json (claims now f owner limit lease i) rows =
      elim (claim_table json now f owner limit lease i rows) [
        | inl e ↦ ap (map work) e
        | inr e ↦ ap (map work) e ∙ claim_rows-work json f owner limit _ i rows
      ]
  after-work json (settles task request i) rows = elim (settle_table task request i rows) [
    | inl e ↦ ap (map work) e
    | inr e ↦ ap (map work) e ∙ settle_rows-work task _ _ i rows
  ]
  after-work json (recovers jittered limit i) rows = elim (recover_table jittered limit i rows) [
    | inl e ↦ ap (map work) e
    | inr (fs, rows', q, e) ↦
        ap (map work) e
        ∙ recover_loop-work jittered i.stamp (expired_rows limit i rows) rows rows' fs q
  ]
  after-work json (requeues stamp id) rows = update_where-work _ _ rows (λ r. refl)

  -- No sequence of queue operations adds, drops or reorders a row, or changes what its command
  -- wrote: the id, the aggregate, the format, the payload, the metadata, the creation time and the
  -- attempt limit.
  pub after_all-work :
      (json : Json V) (os : List (Operation V)) (rows : List (Row V))
      → map work (after_all json os rows) ≡ map work rows
  unfolding after_all
  after_all-work json [] rows = refl
  after_all-work json (o ∷ os) rows =
      after_all-work json os (after json o rows) ∙ after-work json o rows

  abbrev pub ids : List (Row V) → List ℕ
  ids rows = map (λ r. r.id) rows

  pub after-ids :
      (json : Json V) (o : Operation V) (rows : List (Row V)) → ids (after json o rows) ≡ ids rows
  after-ids json o rows =
      sym (map-map (λ (w : Work V). w.id) work (after json o rows))
      ∙ ap (map (λ (w : Work V). w.id)) (after-work json o rows)
      ∙ map-map (λ (w : Work V). w.id) work rows

  pub elem-ids : (r : Row V) (rows : List (Row V)) → In r rows → elem r.id (ids rows) ≡ true
  unfolding elem
  elem-ids r [] m = absurd m
  elem-ids r (x ∷ rows) (inl e) = ground (arith, ap (λ (y : Row V). y.id) e)
  elem-ids r (x ∷ rows) (inr m) = ground (arith, elem-ids r rows m)

  -- Under the primary key, a row is known by its id.
  pub row_of_id :
      (x y : Row V) (rows : List (Row V))
      → Unique (ids rows)
      → In x rows
      → In y rows
      → x.id ≡ y.id
      → x ≡ y
  row_of_id x y [] u m n e = absurd m
  row_of_id x y (r ∷ rows) u (inl p) (inl q) e = p ∙ sym q
  row_of_id x y (r ∷ rows) u (inl p) (inr n) e =
      absurd (ground (arith, u.0, elem-ids y rows n, ap (λ (y : Row V). y.id) p))
  row_of_id x y (r ∷ rows) u (inr m) (inl q) e =
      absurd (ground (arith, u.0, elem-ids x rows m, ap (λ (y : Row V). y.id) q))
  row_of_id x y (r ∷ rows) u (inr m) (inr n) e = row_of_id x y rows u.1 m n e
