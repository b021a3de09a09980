-- ===== src/Postgres/Queue/Counts.antt =====
-- How many rows one call takes, and what its report counts (cqrs-runtime/src/postgres/task_queue).
use account_management_servi.Base.{
  ℕ, suc, ◌+◌, ◌*◌, ◌-◌, ◌≤◌, ◌≡◌, inl, inr, Bool, true, false, not, ◌&&◌, List, [], ◌∷◌, map, Text,
  arith, All, elem, where_true, Result-cases, ok, ap, ◌==◌, leb, if◌then◌else◌, length, length-map,
  length-take_le, take, sort_by, Bool-cases, pos,
}
use account_management_servi.Time.{Duration, Instant, as_millis}
use account_management_servi.Task.Data.{Json, TaskFormat}
use account_management_servi.Task.Queue.{
  LeasedTask, TaskFailure, LeaseRecoveryReport, redelivery_backoff, invalid_retry_delay,
}
use account_management_servi.Postgres.Outbox.{Row, is_ready, claimed}
use account_management_servi.Postgres.Queue.{
  ClaimInput, QueueInput, claim, claim_rows, into_claimed_tasks, into_claimed_task, recover_loop,
  recover_expired, expired_rows, select_ids, sooner, token_of, milliseconds, into_failure,
}
use account_management_servi.Postgres.Queue.Transactions.{recover_one}
use account_management_servi.Postgres.Queue.Operations.{Unique, ids}

-- The numbers of a list but one occurrence.
without : ℕ → List ℕ → List ℕ
without n [] = []
without n (m ∷ ms) = if m == n then ms else m ∷ without n ms

length-without : (n : ℕ) (ms : List ℕ) → elem n ms ≡ true → length ms ≡ suc (length (without n ms))
unfolding without elem
length-without n [] h = absurd (ground (arith, h))
length-without n (m ∷ ms) h = elim (Bool-cases (m == n)) [
  | inl e ↦ ground (arith, e)
  | inr e ↦ ground (arith, e, length-without n ms (ground (arith, e, h)))
]

elem-without :
    (k n : ℕ) (ms : List ℕ) → (n == k) ≡ false → elem k ms ≡ true → elem k (without n ms) ≡ true
unfolding without elem
elem-without k n [] d h = h
elem-without k n (m ∷ ms) d h = ground (arith, d, h, elem-without k n ms d)

All-elem-without :
    (n : ℕ) (ns ms : List ℕ)
    → elem n ns ≡ false
    → All (λ k. elem k ms ≡ true) ns
    → All (λ k. elem k (without n ms) ≡ true) ns
unfolding elem
All-elem-without n [] ms d h = tt
All-elem-without n (k ∷ ns) ms d h =
    (elem-without k n ms (ground (arith, d)) h.0, All-elem-without n ns ms (ground (arith, d)) h.1)

-- Distinct members of a list are no more than its entries.
length-Unique_le :
    (ns ms : List ℕ) → Unique ns → All (λ k. elem k ms ≡ true) ns → length ns ≤ length ms
length-Unique_le [] ms u h = omega arith
length-Unique_le (n ∷ ns) ms u h = omega (
  arith,
  length-without n ms h.0,
  length-Unique_le ns (without n ms) u.1 (All-elem-without n ns ms u.0 h.1),
)

abbrev pub failure_ids : List TaskFailure → List ℕ
failure_ids failures = map (λ (f : TaskFailure). f.id) failures

module _ {V : Type 0} where
  elem-where_true :
      (n : ℕ) (p : Row V → Bool) (rows : List (Row V))
      → elem n (ids rows) ≡ false
      → elem n (ids (where_true p rows)) ≡ false
  unfolding elem where_true
  elem-where_true n p [] h = h
  elem-where_true n p (r ∷ rows) h = ground (arith, h, elem-where_true n p rows)

  where_true-Unique :
      (p : Row V → Bool) (rows : List (Row V))
      → Unique (ids rows)
      → Unique (ids (where_true p rows))
  unfolding where_true
  where_true-Unique p [] u = tt
  where_true-Unique p (r ∷ rows) u =
      ground (arith, elem-where_true r.id p rows u.0, where_true-Unique p rows u.1)

  where_true-elem :
      (ns : List ℕ) (rows : List (Row V))
      → All (λ k. elem k ns ≡ true) (ids (where_true (λ r. elem r.id ns) rows))
  unfolding where_true
  where_true-elem ns [] = tt
  where_true-elem ns (r ∷ rows) = ground (arith, where_true-elem ns rows)

  select_ids-length :
      (test : Row V → Bool) (before : Row V → Row V → Bool) (limit : ℕ) (locked : ℕ → Bool)
      (rows : List (Row V))
      → length (select_ids test before limit locked rows) ≤ limit
  unfolding select_ids
  select_ids-length test before limit locked rows =
      let chosen = sort_by before (where_true (λ r. test r && not (locked r.id)) rows) in
      omega
        (arith, length-map (take limit chosen) (λ (r : Row V). r.id), length-take_le limit chosen)

  claim_rows-length :
      (json : Json V) (f : TaskFormat) (owner : Text) (limit lease_ms : ℕ) (i : ClaimInput)
      (rows : List (Row V))
      → Unique (ids rows)
      → length (claim_rows json f owner limit lease_ms i rows).1 ≤ limit
  unfolding claim_rows
  claim_rows-length json f owner limit lease_ms i rows u =
      let chosen = select_ids (is_ready f i.stamp) sooner limit i.locked rows in
      let taken = where_true (λ (r : Row V). elem r.id chosen) rows in
      omega (
        arith,
        length-map taken (λ r. claimed owner (i.token r.id) (i.clock + lease_ms * 1_000) r),
        length-map taken (λ r. r.id),
        length-Unique_le (ids taken) chosen (where_true-Unique _ rows u)
            (where_true-elem chosen rows),
        select_ids-length (is_ready f i.stamp) sooner limit i.locked rows,
      )

  into_claimed_tasks-length :
      (json : Json V) (f : TaskFormat) (deadline : Instant) (rs : List (Row V))
      (tasks : List (LeasedTask V))
      → into_claimed_tasks json f deadline rs ≡ ok tasks
      → length tasks ≡ length rs
  unfolding into_claimed_tasks
  into_claimed_tasks-length json f deadline [] tasks q = ground (arith, q)
  into_claimed_tasks-length json f deadline (r ∷ rs) tasks q =
      elim (Result-cases (into_claimed_task json f deadline r (token_of json r.lock_token))) [
        | inl (e, p) ↦ absurd (ground (arith, p, q))
        | inr (t, p) ↦ elim (Result-cases (into_claimed_tasks json f deadline rs)) [
          | inl (e, p') ↦ absurd (ground (arith, p, p', q))
          | inr (ts, p') ↦
              ground (arith, p, p', q, into_claimed_tasks-length json f deadline rs ts p')
        ]
      ]

  claim_answer :
      (json : Json V) (now : Instant) (f : TaskFormat) (owner : Text) (limit : ℕ) (lease : Duration)
      (i : ClaimInput) (rows : List (Row V)) (tasks : List (LeasedTask V))
      → (claim json now f owner limit lease i rows).0 ≡ ok tasks
      → (deadline : Instant) × (into_claimed_tasks json f deadline
            (claim_rows json f owner limit (as_millis lease) i rows).1
          ≡ ok tasks)
  unfolding claim
  claim_answer json now f owner limit lease i rows tasks q = (now + lease, ground (arith, q))

  -- On a table with distinct ids a claim that succeeds returns at most as many tasks as it was
  -- asked for.
  pub claim-length :
      (json : Json V) (now : Instant) (f : TaskFormat) (owner : Text) (limit : ℕ) (lease : Duration)
      (i : ClaimInput) (rows : List (Row V)) (tasks : List (LeasedTask V))
      → Unique (ids rows)
      → (claim json now f owner limit lease i rows).0 ≡ ok tasks
      → length tasks ≤ limit
  claim-length json now f owner limit lease i rows tasks u q =
      let (deadline, p) = claim_answer json now f owner limit lease i rows tasks q in
      omega (
        arith,
        into_claimed_tasks-length json f deadline _ tasks p,
        claim_rows-length json f owner limit (as_millis lease) i rows u,
      )

  -- The attempts of the row are used up.
  abbrev pub is_spent : Row V → Bool
  is_spent r = leb r.max_attempts r.attempts

  recover_loop-failures :
      (jittered : ℕ → ℕ → Duration) (stamp : ℕ) (selected rows rows' : List (Row V))
      (failures : List TaskFailure)
      → recover_loop jittered stamp selected rows ≡ ok (failures, rows')
      → failure_ids failures ≡ ids (where_true is_spent selected)
  unfolding recover_loop where_true into_failure
  recover_loop-failures jittered stamp [] rows rows' failures q = ground (arith, q)
  recover_loop-failures jittered stamp (r ∷ rs) rows rows' failures q =
      elim (Result-cases
        (milliseconds (redelivery_backoff (jittered r.id) (pos r.attempts)) invalid_retry_delay)) [
          | inl (e, p) ↦ absurd (ground (arith, p, q))
          | inr (ms, p) ↦
              elim (Result-cases (recover_loop jittered stamp rs (recover_one stamp ms r rows))) [
                | inl (e, p') ↦ absurd (ground (arith, p, p', q))
                | inr (x, p') ↦ ground (
                  arith,
                  p,
                  p',
                  q,
                  recover_loop-failures jittered stamp rs (recover_one stamp ms r rows) x.1 x.0 p',
                )
              ]
        ]

  length-where_true_le :
      (p : Row V → Bool) (rows : List (Row V)) → length (where_true p rows) ≤ length rows
  unfolding where_true
  length-where_true_le p [] = omega arith
  length-where_true_le p (r ∷ rows) = ground (arith, length-where_true_le p rows)

  recover_answer :
      (jittered : ℕ → ℕ → Duration) (limit : ℕ) (i : QueueInput) (rows : List (Row V))
      (report : LeaseRecoveryReport)
      → (recover_expired jittered limit i rows).0 ≡ ok report
      → (rows' : List (Row V)) × (recover_loop jittered i.stamp (expired_rows limit i rows) rows
          ≡ ok (report.failures, rows'))
        × (report.retried_count ≡ length (expired_rows limit i rows) - length report.failures)
  unfolding recover_expired
  recover_answer jittered limit i rows report q =
      elim (Result-cases (recover_loop jittered i.stamp (expired_rows limit i rows) rows)) [
        | inl (e, p) ↦ absurd (ground (arith, p, q))
        | inr ((fs, rows'), p) ↦ (rows', ground (arith, p, q), ground (arith, p, q))
      ]

  -- The report of a successful recovery counts every row that it took exactly once: its failures
  -- name the taken rows whose attempts were used up, in order, its retried count and its failures
  -- add up to the rows taken, and these are at most the limit.
  pub recovery_report :
      (jittered : ℕ → ℕ → Duration) (limit : ℕ) (i : QueueInput) (rows : List (Row V))
      (report : LeaseRecoveryReport)
      → (recover_expired jittered limit i rows).0 ≡ ok report
      → let taken = expired_rows limit i rows in
        (failure_ids report.failures ≡ ids (where_true is_spent taken))
        × (report.retried_count + length report.failures ≡ length taken)
        × (length taken ≤ limit)
  unfolding expired_rows
  recovery_report jittered limit i rows report q =
      let taken = expired_rows limit i rows in
      let (rows', p, n) = recover_answer jittered limit i rows report q in
      let same = recover_loop-failures jittered i.stamp taken rows rows' report.failures p in
      let le : length report.failures ≤ length taken = omega (
        arith,
        length-map report.failures (λ (f : TaskFailure). f.id),
        ap length same,
        length-map (where_true is_spent taken) (λ (r : Row V). r.id),
        length-where_true_le is_spent taken,
      ) in
      (same, omega (arith, n, le), length-take_le limit _)
