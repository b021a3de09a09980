-- ===== src/Postgres/Write/Conflicts.antt =====
-- Concurrent commands on one aggregate
-- (cqrs-runtime/src/postgres/event_repository_with_outbox/write.rs).
use account_management_servi.Base.{
  ℕ, ◌≡◌, refl, true, false, ◌||◌, none, List, [], ◌∷◌, ◌++◌, Text, length, text, text_eq,
  text_eq_iff, text_eq_refl, ok, err, inl, inr, arith, ap, sym, ◌∙◌, where_true, ◌⊎◌,
}
use account_management_servi.Task.Data.{NewTask}
use account_management_servi.Postgres.WritePlan.{
  SerializedEvent, SnapshotWrite, none_written, insert, update,
}
use account_management_servi.Postgres.Write.{
  Database, StoredEvent, StoredSnapshot, Statement, optimistic_lock, write_snapshot, run_statement,
  has_event, persist_one, is_previous, unique_violation, map_sqlx_error,
}
use account_management_servi.Postgres.Write.Atomic.{
  IsWritten, update_where_none, persist_one_atomic,
}
use mathlib.Core.Path.{subst}

pub events_pkey_lem : map_sqlx_error (unique_violation (text "events_pkey")) ≡ optimistic_lock
unfolding map_sqlx_error text_eq
events_pkey_lem = refl

snapshots_pkey_lem : map_sqlx_error (unique_violation (text "snapshots_pkey")) ≡ optimistic_lock
unfolding map_sqlx_error text_eq
snapshots_pkey_lem = refl

text_eq_sym : (a b : Text) → text_eq a b ≡ true → text_eq b a ≡ true
text_eq_sym a b h = (text_eq_iff b a).1 (sym ((text_eq_iff a b).0 h))

module _ {V : Type 0} where
  write_snapshot_error :
      (ty : Text) (sequence : ℕ) (snapshot : SnapshotWrite V) (db : Database V)
      → (write_snapshot ty sequence snapshot db.snapshots
          ≡ err (unique_violation (text "snapshots_pkey")))
        ⊎ ((x : List (StoredSnapshot V) × ℕ) × (write_snapshot ty sequence snapshot db.snapshots
              ≡ ok x))
  unfolding write_snapshot
  write_snapshot_error ty sequence none_written db = ground arith
  write_snapshot_error ty sequence (insert id payload version) db = ground arith
  write_snapshot_error ty sequence (update id payload version) db = ground arith

  sequence_taken :
      (ty : Text) (tasks : List (NewTask V)) (event : SerializedEvent V) (sequence : ℕ)
      (snapshot : SnapshotWrite V) (s : Statement) (db : Database V)
      → has_event ty event.aggregate_id sequence db.events ≡ true
      → s.fault ≡ none
      → (persist_one ty tasks event sequence snapshot s db).0 ≡ err optimistic_lock
  unfolding persist_one run_statement
  sequence_taken ty tasks event sequence snapshot s db h f =
      elim (write_snapshot_error ty sequence snapshot db) [
        | inl p ↦ ground (arith, h, f, p, snapshots_pkey_lem)
        | inr (x, p) ↦ ground (arith, h, f, p, events_pkey_lem)
      ]

  refused :
      (ty : Text) (tasks : List (NewTask V)) (event : SerializedEvent V) (sequence : ℕ)
      (snapshot : SnapshotWrite V) (s : Statement) (db : Database V)
      → has_event ty event.aggregate_id sequence db.events ≡ true
      → s.fault ≡ none
      → persist_one ty tasks event sequence snapshot s db ≡ (err optimistic_lock, db)
  refused ty tasks event sequence snapshot s db h f =
      let q = sequence_taken ty tasks event sequence snapshot s db h f in
      elim (persist_one_atomic ty tasks event sequence snapshot s db) [
        | inl (p, w) ↦ absurd (ground (arith, p, q))
        | inr (inl (n, p)) ↦ λ k. (q k, p k)
        | inr (inr (n, g, d, w)) ↦ absurd (g f)
      ]

  has_event-append :
      (ty id : Text) (sequence : ℕ) (xs ys : List (StoredEvent V))
      → has_event ty id sequence (xs ++ ys)
        ≡ (has_event ty id sequence xs || has_event ty id sequence ys)
  unfolding has_event
  has_event-append ty id sequence [] ys = refl
  has_event-append ty id sequence (x ∷ xs) ys =
      ground (arith, has_event-append ty id sequence xs ys)

  written-has_event :
      (stamp : ℕ) (ty : Text) (tasks : List (NewTask V)) (event : SerializedEvent V) (sequence : ℕ)
      (snapshot : SnapshotWrite V) (db db' : Database V)
      → IsWritten stamp ty tasks event sequence snapshot db db'
      → has_event ty event.aggregate_id sequence db'.events ≡ true
  unfolding has_event
  written-has_event stamp ty tasks event sequence snapshot db db' w =
      ap (has_event ty event.aggregate_id sequence) w.1
      ∙ has_event-append ty event.aggregate_id sequence db.events _
      ∙ ground (arith, text_eq_refl ty, text_eq_refl event.aggregate_id)

  -- Of two writes to the same aggregate with the same sequence number, whatever else they hold,
  -- when the first was told of success and the second's connection answers, the second is told of
  -- an optimistic lock conflict and changes nothing.
  pub one_writer_wins :
      (ty : Text) (first second : List (NewTask V)) (event event' : SerializedEvent V)
      (sequence : ℕ) (snapshot snapshot' : SnapshotWrite V) (s s' : Statement) (db : Database V)
      → event'.aggregate_id ≡ event.aggregate_id
      → (persist_one ty first event sequence snapshot s db).0 ≡ ok tt
      → s'.fault ≡ none
      → let db' = (persist_one ty first event sequence snapshot s db).1 in
        persist_one ty second event' sequence snapshot' s' db' ≡ (err optimistic_lock, db')
  one_writer_wins ty first second event event' sequence snapshot snapshot' s s' db same won f =
      elim (persist_one_atomic ty first event sequence snapshot s db) [
        | inl (p, w) ↦
            let db' = (persist_one ty first event sequence snapshot s db).1 in
            let taken = written-has_event s.stamp ty first event sequence snapshot db db' w in
            refused ty second event' sequence snapshot' s' db'
              (subst (λ id. has_event ty id sequence db'.events ≡ true) (sym same) taken) f
        | inr (inl (n, p)) ↦ absurd (n won)
        | inr (inr (n, g, d, w)) ↦ absurd (n won)
      ]

  -- The primary key of `events`.
  abbrev pub KeysDistinct : List (StoredEvent V) → Type 0
  KeysDistinct [] = Unit
  KeysDistinct (x ∷ xs) =
      (has_event x.aggregate_type x.event.aggregate_id x.event.sequence xs ≡ false)
      × KeysDistinct xs

  KeysDistinct-snoc :
      (xs : List (StoredEvent V)) (e : StoredEvent V)
      → KeysDistinct xs
      → has_event e.aggregate_type e.event.aggregate_id e.event.sequence xs ≡ false
      → KeysDistinct (xs ++ e ∷ [])
  unfolding has_event
  KeysDistinct-snoc [] e k h = (refl, tt)
  KeysDistinct-snoc (x ∷ xs) e k h = (
    has_event-append x.aggregate_type x.event.aggregate_id x.event.sequence xs (e ∷ [])
        ∙ ground (
          arith,
          k.0,
          h,
          text_eq_sym e.aggregate_type x.aggregate_type,
          text_eq_sym e.event.aggregate_id x.event.aggregate_id,
        ),
    KeysDistinct-snoc xs e k.1 (ground (arith, h)),
  )

  written-KeysDistinct :
      (stamp : ℕ) (ty : Text) (tasks : List (NewTask V)) (event : SerializedEvent V) (sequence : ℕ)
      (snapshot : SnapshotWrite V) (db db' : Database V)
      → IsWritten stamp ty tasks event sequence snapshot db db'
      → KeysDistinct db.events
      → KeysDistinct db'.events
  written-KeysDistinct stamp ty tasks event sequence snapshot db db' w k =
      subst KeysDistinct (sym w.1) (KeysDistinct-snoc db.events _ k w.0)

  -- Every write, successful or not and whatever its connection does, keeps the primary key of the
  -- events: no two events of one aggregate share a sequence number.
  pub persist_one-KeysDistinct :
      (ty : Text) (tasks : List (NewTask V)) (event : SerializedEvent V) (sequence : ℕ)
      (snapshot : SnapshotWrite V) (s : Statement) (db : Database V)
      → KeysDistinct db.events
      → KeysDistinct (persist_one ty tasks event sequence snapshot s db).1.events
  persist_one-KeysDistinct ty tasks event sequence snapshot s db k =
      elim (persist_one_atomic ty tasks event sequence snapshot s db) [
        | inl (p, w) ↦ written-KeysDistinct s.stamp ty tasks event sequence snapshot db _ w k
        | inr (inl (n, p)) ↦ subst (λ (d : Database V). KeysDistinct d.events) (sym p) k
        | inr (inr (n, f, d, w)) ↦
            written-KeysDistinct s.stamp ty tasks event sequence snapshot db _ w k
      ]

  -- A write whose snapshot no longer follows the stored version, over a connection that answers, is
  -- reported as an optimistic lock conflict, and stores neither the event nor a task.
  pub stale_snapshot :
      (ty : Text) (tasks : List (NewTask V)) (event : SerializedEvent V) (sequence : ℕ) (id : Text)
      (payload : V) (version : ℕ) (s : Statement) (db : Database V)
      → where_true (is_previous ty id version) db.snapshots ≡ []
      → s.fault ≡ none
      → persist_one ty tasks event sequence (update id payload version) s db
        ≡ (err optimistic_lock, db)
  unfolding persist_one run_statement write_snapshot
  stale_snapshot ty tasks event sequence id payload version s db h f =
      let set = λ (x : StoredSnapshot V). record x {
        last_sequence = sequence;
        current_snapshot = version;
        payload = payload;
      } in
      ground
        (arith, h, f, update_where_none (is_previous ty id version) set db.snapshots (ap length h))
