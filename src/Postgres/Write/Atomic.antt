-- ===== src/Postgres/Write/Atomic.antt =====
-- What a command's write leaves behind
-- (cqrs-runtime/src/postgres/event_repository_with_outbox/write.rs).
use account_management_servi.Base.{
  ℕ, ◌≡◌, ◌≢◌, refl, Bool, true, false, ◌&&◌, none, List, [], ◌∷◌, ◌++◌, map, Text, text, length,
  ◌==◌, if◌then◌else◌, ok, err, Result-cases, where_true, update_where, ◌≤◌, ◌⊎◌, inl, inr, arith,
  Bool-cases, Option-cases, ◌∙◌, sym,
}
use mathlib.Core.Path.{subst}
use mathlib.Core.List.{append-nil, append_assoc}
use account_management_servi.Task.Data.{NewTask}
use account_management_servi.Postgres.Outbox.{Row, inserted}
use account_management_servi.Postgres.WritePlan.{
  SerializedEvent, SnapshotWrite, none_written, insert, update,
}
use account_management_servi.Postgres.Write.{
  Database, StoredSnapshot, Statement, SqlxError, write_snapshot, write_tasks, run_statement,
  has_event, persist_one, unique_violation, is_previous, snapshot_at, has_snapshot,
}

module _ {V : Type 0} where
  write_tasks_all :
      (stamp : ℕ) (ty id : Text) (sequence : ℕ) (tasks : List (NewTask V))
      (rows rows' : List (Row V))
      → write_tasks stamp ty id sequence tasks rows ≡ ok rows'
      → rows' ≡ rows ++ map (inserted stamp ty id sequence) tasks
  unfolding write_tasks
  write_tasks_all stamp ty id sequence [] rows rows' h = ground (arith, h, append-nil rows)
  write_tasks_all stamp ty id sequence (t ∷ ts) rows rows' h =
      write_tasks_all stamp ty id sequence ts (rows ++ inserted stamp ty id sequence t ∷ []) rows'
        (ground (arith, h))
      ∙ append_assoc rows (inserted stamp ty id sequence t ∷ []) _

  pub update_where_none :
      (p : StoredSnapshot V → Bool) (f : StoredSnapshot V → StoredSnapshot V)
      (xs : List (StoredSnapshot V))
      → length (where_true p xs) ≡ 0
      → update_where p f xs ≡ xs
  unfolding where_true update_where
  update_where_none p f [] h = refl
  update_where_none p f (x ∷ xs) h = ground (arith, h, update_where_none p f xs)

  update_where_count :
      (p q : StoredSnapshot V → Bool) (f : StoredSnapshot V → StoredSnapshot V)
      (xs : List (StoredSnapshot V))
      → ((x : StoredSnapshot V) → p x ≡ true → q (f x) ≡ true)
      → length (where_true p xs) ≤ length (where_true q (update_where p f xs))
  unfolding where_true update_where
  update_where_count p q f [] h = omega arith
  update_where_count p q f (x ∷ xs) h = ground (arith, h x, update_where_count p q f xs h)

  -- The snapshot part changes one row, or none and then nothing.
  write_snapshot_count :
      (ty : Text) (sequence : ℕ) (snapshot : SnapshotWrite V)
      (snapshots snapshots' : List (StoredSnapshot V)) (count : ℕ)
      → write_snapshot ty sequence snapshot snapshots ≡ ok (snapshots', count)
      → (count ≤ 1)
        × (count ≡ 0 → snapshots' ≡ snapshots)
        × (has_snapshot snapshot ≡ false → count ≡ 0)
  unfolding write_snapshot
  write_snapshot_count ty sequence none_written snapshots snapshots' count h = ground (arith, h)
  write_snapshot_count ty sequence (insert id payload version) snapshots snapshots' count h =
      ground (arith, h)
  write_snapshot_count ty sequence (update id payload version) snapshots snapshots' count h =
      let set = λ (s : StoredSnapshot V). record s {
        last_sequence = sequence;
        current_snapshot = version;
        payload = payload;
      } in
      ground (
        arith,
        h,
        update_where_none (is_previous ty id version) set snapshots,
        update_where_count (is_previous ty id version) (snapshot_at ty id sequence) set snapshots
            (λ x e. ground (arith, e)),
      )

  -- The database with the whole write in it: the event is new, and stored with every task and the
  -- snapshot.
  abbrev pub IsWritten :
      ℕ
      → Text
      → List (NewTask V)
      → SerializedEvent V
      → ℕ
      → SnapshotWrite V
      → Database V
      → Database V
      → Type 0
  IsWritten stamp ty tasks event sequence snapshot db db' =
      (has_event ty event.aggregate_id sequence db.events ≡ false)
      × (db'.events
          ≡ db.events
            ++ record { aggregate_type = ty; event = record event { sequence = sequence } } ∷ [])
      × (db'.outbox ≡ db.outbox ++ map (inserted stamp ty event.aggregate_id sequence) tasks)
      × (write_snapshot ty sequence snapshot db.snapshots
          ≡ ok (db'.snapshots, if has_snapshot snapshot then 1 else 0))

  run_statement_cases :
      (stamp : ℕ) (ty : Text) (tasks : List (NewTask V)) (event : SerializedEvent V) (sequence : ℕ)
      (snapshot : SnapshotWrite V) (db : Database V)
      → let x = run_statement stamp ty tasks event sequence snapshot db in
        ((e : SqlxError) × (x ≡ err e))
        ⊎ (x ≡ ok (db, 0))
        ⊎ ((db' : Database V) × (x ≡ ok (db', 1))
            × IsWritten stamp ty tasks event sequence snapshot db db')
  unfolding run_statement
  run_statement_cases stamp ty tasks event sequence snapshot db =
      elim (Result-cases (write_snapshot ty sequence snapshot db.snapshots)) [
        | inl (e, p) ↦ inl (e, ground (arith, p))
        | inr ((ss, count), p) ↦
            let (le, same, zero) =
              write_snapshot_count ty sequence snapshot db.snapshots ss count p in
            elim (Bool-cases (has_snapshot snapshot && (count == 0))) [
              | inl z ↦ inr (inl (ground (arith, p, z, same)))
              | inr z ↦ elim (Bool-cases (has_event ty event.aggregate_id sequence db.events)) [
                | inl k ↦ inl (unique_violation (text "events_pkey"), ground (arith, p, z, k))
                | inr k ↦
                    elim (Result-cases
                      (write_tasks stamp ty event.aggregate_id sequence tasks db.outbox)) [
                        | inl (e, w) ↦ inl (e, ground (arith, p, z, k, w))
                        | inr (rows, w) ↦ inr (
                            inr (
                              record {
                                events =
                                    db.events
                                    ++ record {
                                      aggregate_type = ty;
                                      event = record event { sequence = sequence };
                                    }
                                      ∷ [];
                                snapshots = ss;
                                outbox = rows;
                              },
                              ground (arith, p, z, k, w, le, zero),
                              (
                                k,
                                refl,
                                write_tasks_all stamp ty event.aggregate_id sequence tasks db.outbox
                                    rows w,
                                ground (arith, p, z, le, zero),
                              ),
                            ))
                      ]
              ]
            ]
      ]

  -- A write that answers success has stored the event and all its tasks; one that fails leaves the
  -- database alone, unless the connection lost the answer of a statement that was committed; and then
  -- the whole write is stored.
  pub persist_one_atomic :
      (ty : Text) (tasks : List (NewTask V)) (event : SerializedEvent V) (sequence : ℕ)
      (snapshot : SnapshotWrite V) (s : Statement) (db : Database V)
      → let (answer, db') = persist_one ty tasks event sequence snapshot s db in
        ((answer ≡ ok tt) × IsWritten s.stamp ty tasks event sequence snapshot db db')
        ⊎ ((answer ≢ ok tt) × (db' ≡ db))
        ⊎ ((answer ≢ ok tt)
            × (s.fault ≢ none)
            × (s.durable ≡ true)
            × IsWritten s.stamp ty tasks event sequence snapshot db db')
  unfolding persist_one
  persist_one_atomic ty tasks event sequence snapshot s db =
      elim (run_statement_cases s.stamp ty tasks event sequence snapshot db) [
        | inl (e, p) ↦ inr (inl (ground (arith, p)))
        | inr (inl p) ↦ inr (inl (ground (arith, p)))
        | inr (inr (db', p, w)) ↦
            let written = IsWritten s.stamp ty tasks event sequence snapshot db in
            elim (Option-cases s.fault) [
              | inl f ↦
                  let e : (persist_one ty tasks event sequence snapshot s db).1 ≡ db' =
                    ground (arith, p, f) in
                  inl (ground (arith, p, f), subst written (sym e) w)
              | inr (x, f) ↦ elim (Bool-cases s.durable) [
                | inl d ↦
                    let e : (persist_one ty tasks event sequence snapshot s db).1 ≡ db' =
                      ground (arith, p, f, d) in
                    inr (inr (ground (arith, p, f), ground (arith, f), d, subst written (sym e) w))
                | inr d ↦ inr (inl (ground (arith, p, f, d)))
              ]
            ]
      ]
