-- ===== src/Postgres/Queue/Holding.antt =====
-- What it is for a lease to hold a row (cqrs-runtime/src/task/queue/port.rs): the token that the claim
-- issued, and a time that is not over.
use account_management_servi.Base.{
  Option-cases, ℕ, ◌<◌, ◌≤◌, ◌≡◌, refl, inl, inr, true, false, Bool-cases, Option, none, some,
  arith,
}
use account_management_servi.Task.Queue.{LeasedTask}
use account_management_servi.Postgres.Outbox.{
  Row, Status, pending, completed, failed, processing, is_owned, is_expired, is_processing,
  has_token, outlives,
}

processing_only : (s : Status) → is_processing s ≡ true → s ≡ processing
processing_only processing h = refl
processing_only pending h = absurd (ground (arith, h))
processing_only completed h = absurd (ground (arith, h))
processing_only failed h = absurd (ground (arith, h))

has_token-some : (o : Option ℕ) (token : ℕ) → has_token o token ≡ true → o ≡ some token
has_token-some none token h = absurd (ground (arith, h))
has_token-some (some t) token h = ground (arith, h)

outlives-some :
    (o : Option ℕ) (clock : ℕ) → outlives o clock ≡ true → (u : ℕ) × (o ≡ some u) × (clock < u)
outlives-some none clock h = absurd (ground (arith, h))
outlives-some (some u) clock h = (u, refl, ground (arith, h))

module _ {V : Type 0} where
  pub record Holds (task : LeasedTask V) (clock : ℕ) (r : Row V) : Type 0 where
    pub same_id : r.id ≡ task.attempt.id
    pub same_token : r.lock_token ≡ some task.lease.lock_token
    pub in_progress : r.status ≡ processing
    pub until : ℕ
    pub lasts : r.locked_until ≡ some until
    pub not_over : clock < until

  pub is_owned-Holds :
      (task : LeasedTask V) (clock : ℕ) (r : Row V)
      → is_owned task.attempt.id task.lease.lock_token clock r ≡ true
      → Holds task clock r
  unfolding is_owned
  is_owned-Holds task clock r h =
      let (u, e, n) = outlives-some r.locked_until clock (ground (arith, h)) in
      record {
        same_id = ground (arith, h);
        same_token = has_token-some r.lock_token task.lease.lock_token (ground (arith, h));
        in_progress = processing_only r.status (ground (arith, h));
        until = u;
        lasts = e;
        not_over = n;
      }

  pub not_owned :
      (task : LeasedTask V) (clock : ℕ) (r : Row V)
      → (Holds task clock r → ⊥)
      → is_owned task.attempt.id task.lease.lock_token clock r ≡ false
  not_owned task clock r h =
      elim (Bool-cases (is_owned task.attempt.id task.lease.lock_token clock r)) [
        | inl q ↦ absurd (h (is_owned-Holds task clock r q))
        | inr q ↦ q
      ]

  pub Holds-is_owned :
      (task : LeasedTask V) (clock : ℕ) (r : Row V)
      → Holds task clock r
      → is_owned task.attempt.id task.lease.lock_token clock r ≡ true
  unfolding is_owned
  Holds-is_owned task clock r h =
      ground (arith, h.same_id, h.same_token, h.in_progress, h.lasts, h.not_over)

  pub owned_or_not :
      (task : LeasedTask V) (clock : ℕ) (r : Row V)
      → is_owned task.attempt.id task.lease.lock_token clock r ≡ false
      → Holds task clock r
      → ⊥
  owned_or_not task clock r u h = ground (arith, u, Holds-is_owned task clock r h)

  pub Holds-earlier :
      (task : LeasedTask V) (clock clock' : ℕ) (r : Row V)
      → clock ≤ clock'
      → Holds task clock' r
      → Holds task clock r
  Holds-earlier task clock clock' r le h = record {
    same_id = h.same_id;
    same_token = h.same_token;
    in_progress = h.in_progress;
    until = h.until;
    lasts = h.lasts;
    not_over = omega (arith, le, h.not_over);
  }

  -- The lease of the row, whoever holds it, has not run out: its end, if it has one, is later.
  abbrev pub IsRunning : ℕ → Row V → Type 0
  IsRunning stamp r = (u : ℕ) → r.locked_until ≡ some u → stamp < u

  pub not_expired : (stamp : ℕ) (r : Row V) → IsRunning stamp r → is_expired stamp r ≡ false
  unfolding is_expired
  not_expired stamp r running = elim (Option-cases r.locked_until) [
    | inl e ↦ ground (arith, e)
    | inr (u, e) ↦ ground (arith, e, running u e)
  ]
