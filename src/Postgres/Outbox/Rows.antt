-- ===== src/Postgres/Outbox/Rows.antt =====
-- The CHECK constraints of a row under each statement (cqrs-runtime/src/postgres/task_queue,
-- cqrs-runtime/sql).
use account_management_servi.Base.{ℕ, ◌<◌, ◌≡◌, true, Option, Text, arith, positive_to_nat}
use account_management_servi.Task.Data.{Json, TaskFormat, NewTask}
use account_management_servi.Task.Data.Checked.{IsPublishable}
use account_management_servi.Postgres.Outbox.{
  Row, Checks, is_ready, claimed, settled, recovered, restarted, inserted, Requested, to_pending,
}

module _ {V : Type 0} (json : Json V) where
  pub inserted-Checks :
      (stamp : ℕ) (aggregate_type aggregate_id : Text) (sequence : ℕ) (t : NewTask V)
      → 0 < sequence
      → IsPublishable json t
      → Checks json (inserted stamp aggregate_type aggregate_id sequence t)
  unfolding inserted
  inserted-Checks stamp ty id sequence t h v =
      ground (arith, v.formatted.typed, positive_to_nat t.max_attempts)

  pub claimed-Checks :
      (f : TaskFormat) (stamp : ℕ) (owner : Text) (token until : ℕ) (r : Row V)
      → Checks json r
      → is_ready f stamp r ≡ true
      → Checks json (claimed owner token until r)
  unfolding claimed is_ready
  claimed-Checks f stamp owner token until r c h = ground (arith, c.pending_spare)

  pub settled-Checks :
      (stamp : ℕ) (q : Requested) (delay_ms : ℕ) (error : Option Text) (r : Row V)
      → Checks json r
      → Checks json (settled stamp q delay_ms error r)
  unfolding settled
  settled-Checks stamp to_pending delay_ms error r c = ground arith
  settled-Checks stamp _ delay_ms error r c = ground arith

  pub recovered-Checks :
      (stamp delay_ms : ℕ) (r : Row V) → Checks json r → Checks json (recovered stamp delay_ms r)
  unfolding recovered
  recovered-Checks stamp delay_ms r c = ground arith

  pub restarted-Checks : (stamp : ℕ) (r : Row V) → Checks json r → Checks json (restarted stamp r)
  unfolding restarted
  restarted-Checks stamp r c = ground arith
