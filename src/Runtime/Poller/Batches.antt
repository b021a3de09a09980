-- ===== src/Runtime/Poller/Batches.antt =====
-- What one rotating claim hands over (cqrs-runtime/src/runtime/poller.rs).
use account_management_servi.Base.{
  ℕ, zero, suc, ◌+◌, ◌-◌, ◌%◌, ◌≤◌, ◌<◌, ◌≡◌, refl, Option, none, some, List, [], ◌∷◌, ◌++◌, length,
  length-append, get_elem?, ◌==◌, Result, ok, err, Outcome, returns, rejects, panics, arith,
  Bool-cases, inl, inr, Result-cases, ◌⊎◌, ap, ◌∙◌, sym,
}
use account_management_servi.Task.Data.{TaskFormat}
use account_management_servi.Task.Queue.{TaskProcessingError, timed_out}
use account_management_servi.Runtime.Poller.{
  QueueClaim, HonoursLimit, Poller, wrapping_add, or_timed_out, or_claimed, claim_from, claim,
}
use mathlib.Core.List.{append-nil, append_assoc}
use mathlib.Core.Path.{subst}

get_elem?-some :
    {A : Type 0} (xs : List A) (i : ℕ) → i < length xs → (a : A) × (get_elem? xs i ≡ some a)
get_elem?-some [] i h = absurd (omega arith)
get_elem?-some (x ∷ xs) zero h = (x, refl)
get_elem?-some (x ∷ xs) (suc i) h = get_elem?-some xs i (omega arith)

mod_lt : (a n : ℕ) → 0 < n → a % n < n
mod_lt a n h = omega arith

-- A batch, or an error with no batch, within the limit.
abbrev pub IsBatch : {T : Type 0} → ℕ → Outcome TaskProcessingError (List T) → Type 0
IsBatch limit (returns tasks) = length tasks ≤ limit
IsBatch limit (rejects e) = Unit
IsBatch limit panics = ⊥

answered :
    {T : Type 0} (o : Option (Result TaskProcessingError (List T))) (tasks : List T)
    → or_timed_out o ≡ ok tasks
    → o ≡ some (ok tasks)
answered none tasks h = absurd (ground (arith, h))
answered (some r) tasks h = ap some h

or_claimed-IsBatch :
    {T : Type 0} (limit : ℕ) (claimed : List T) (e : TaskProcessingError)
    → length claimed ≤ limit
    → IsBatch limit (or_claimed claimed e)
or_claimed-IsBatch limit [] e h = tt
or_claimed-IsBatch limit (t ∷ ts) e h = h

module _ {T W : Type 0} (queue : QueueClaim T W) where
  -- One round: the batch is full, the queue fails, or it adds to the batch.
  claim_from-step :
      (formats : List TaskFormat) (start limit left offset : ℕ) (claimed : List T) (w : W)
      → suc left + offset ≡ length formats
      → let x = claim_from queue formats start limit (suc left) offset claimed w in
        (x ≡ (returns claimed, w))
        ⊎ ((f : TaskFormat) × (e : TaskProcessingError) × (let a =
                queue f (limit - length claimed) w in
              (or_timed_out a.0 ≡ err e) × (x ≡ (or_claimed claimed e, a.1))))
        ⊎ ((f : TaskFormat) × (tasks : List T) × (let a = queue f (limit - length claimed) w in
              (a.0 ≡ some (ok tasks))
              × (x
                  ≡ claim_from queue formats start limit left (suc offset) (claimed ++ tasks) a.1)))
  unfolding claim_from
  claim_from-step formats start limit left offset claimed w e =
      let (f, g) =
        get_elem?-some formats (wrapping_add start offset % length formats)
          (mod_lt (wrapping_add start offset) (length formats) (omega (arith, e))) in
      let x = queue f (limit - length claimed) w in
      elim (Bool-cases (length claimed == limit)) [
        | inl full ↦ inl (ground (arith, full))
        | inr free ↦ elim (Result-cases (or_timed_out x.0)) [
          | inl (r, q) ↦ inr (inl (f, r, (q, ground (arith, free, g, q))))
          | inr (tasks, q) ↦
              inr (inr (f, tasks, (answered x.0 tasks q, ground (arith, free, g, q))))
        ]
      ]

  claim_from-IsBatch :
      HonoursLimit queue
      → (formats : List TaskFormat) (start limit left offset : ℕ) (claimed : List T) (w : W)
      → left + offset ≡ length formats
      → length claimed ≤ limit
      → IsBatch limit (claim_from queue formats start limit left offset claimed w).0
  unfolding claim_from
  claim_from-IsBatch honours formats start limit zero offset claimed w e h = h
  claim_from-IsBatch honours formats start limit (suc left) offset claimed w e h =
      elim (claim_from-step formats start limit left offset claimed w e) [
        | inl q ↦ subst (λ y. IsBatch limit y.0) (sym q) h
        | inr (inl (f, r, (_, q))) ↦
            subst (λ y. IsBatch limit y.0) (sym q) (or_claimed-IsBatch limit claimed r h)
        | inr (inr (f, tasks, (a, q))) ↦
            let w' = (queue f (limit - length claimed) w).1 in
            let few = honours f (limit - length claimed) w w' tasks (λ k. (a k, w')) in
            subst (λ y. IsBatch limit y.0) (sym q)
              (claim_from-IsBatch honours formats start limit left (suc offset) (claimed ++ tasks)
                w' (omega (arith, e)) (omega (arith, h, few, length-append claimed tasks)))
      ]

  -- Of a queue that honours the limit of each claim, the poller returns at most as many tasks as it
  -- was asked for or an error, and never panics.
  pub claim-IsBatch :
      HonoursLimit queue
      → (p : Poller) (limit : ℕ) (w : W) → IsBatch limit (claim queue p limit w).0
  unfolding claim
  claim-IsBatch honours p limit w =
      claim_from-IsBatch honours p.formats p.next_format_start limit (length p.formats) 0 [] w
        (omega arith) (omega arith)

-- The queue with a record of the answers to its claims, oldest first: `none` if none came before the deadline.
abbrev pub Answers : Type 0 → Type 0
Answers T = List (Option (Result TaskProcessingError (List T)))

abbrev pub recorded : {T W : Type 0} → QueueClaim T W → QueueClaim T (Answers T × W)
recorded queue f limit (log, w) =
    let (answer, w') = queue f limit w in (answer, (log ++ (answer ∷ []), w'))

-- The answers that hold these batches, and all their tasks.
abbrev pub answers : {T : Type 0} → List (List T) → Answers T
answers [] = []
answers (b ∷ bs) = some (ok b) ∷ answers bs

abbrev pub tasks_of : {T : Type 0} → List (List T) → List T
tasks_of [] = []
tasks_of (b ∷ bs) = b ++ tasks_of bs

-- What the poller makes of the answers: they all arrived with tasks; or all but the last did, which failed
-- or came too late, and the poller returns the tasks of the others, or that error if there are none.
pub data Returned {T : Type 0} (out : Outcome TaskProcessingError (List T)) (log : Answers T)
    : Type 0 where
  all_arrived :
      (batches : List (List T))
      → log ≡ answers batches
      → out ≡ returns (tasks_of batches)
      → Returned out log
  last_failed :
      (batches : List (List T)) (last : Option (Result TaskProcessingError (List T)))
      (e : TaskProcessingError) (t : T) (ts : List T)
      → (last ≡ none) ⊎ (last ≡ some (err e))
      → log ≡ answers batches ++ (last ∷ [])
      → tasks_of batches ≡ t ∷ ts
      → out ≡ returns (t ∷ ts)
      → Returned out log
  gave_up :
      (batches : List (List T)) (last : Option (Result TaskProcessingError (List T)))
      (e : TaskProcessingError)
      → ((last ≡ none) × (e ≡ timed_out)) ⊎ (last ≡ some (err e))
      → log ≡ answers batches ++ (last ∷ [])
      → tasks_of batches ≡ []
      → out ≡ rejects e
      → Returned out log

answers-append :
    {T : Type 0} (bs : List (List T)) (b : List T)
    → answers (bs ++ (b ∷ [])) ≡ answers bs ++ (some (ok b) ∷ [])
answers-append [] b = refl
answers-append (x ∷ bs) b = ap (λ l. some (ok x) ∷ l) (answers-append bs b)

tasks_of-append :
    {T : Type 0} (bs : List (List T)) (b : List T) → tasks_of (bs ++ (b ∷ [])) ≡ tasks_of bs ++ b
tasks_of-append [] b = append-nil b
tasks_of-append (x ∷ bs) b =
    ap (λ l. x ++ l) (tasks_of-append bs b) ∙ sym (append_assoc x (tasks_of bs) b)

failure :
    {T : Type 0} (o : Option (Result TaskProcessingError (List T))) (e : TaskProcessingError)
    → or_timed_out o ≡ err e
    → ((o ≡ none) × (e ≡ timed_out)) ⊎ (o ≡ some (err e))
failure none e h = inl (refl, ground (arith, h))
failure (some r) e h = inr (ap some h)

failed-Returned :
    {T : Type 0} (batches : List (List T)) (claimed : List T)
    (o : Option (Result TaskProcessingError (List T))) (e : TaskProcessingError)
    → tasks_of batches ≡ claimed
    → or_timed_out o ≡ err e
    → Returned (or_claimed claimed e) (answers batches ++ (o ∷ []))
failed-Returned batches [] o e c h = gave_up batches o e (failure o e h) refl c refl
failed-Returned batches (t ∷ ts) o e c h =
    last_failed batches o e t ts (elim (failure o e h) [ inl k ↦ inl k.0 | inr k ↦ inr k ]) refl c
      refl

module _ {T W : Type 0} (queue : QueueClaim T W) where
  claim_from-Returned :
      (formats : List TaskFormat) (start limit left offset : ℕ) (batches : List (List T)) (w : W)
      → left + offset ≡ length formats
      → let x =
          claim_from
            (recorded queue)
            formats
            start
            limit
            left
            offset
            (tasks_of batches)
            (answers batches, w) in
        Returned x.0 x.1.0
  unfolding claim_from
  claim_from-Returned formats start limit zero offset batches w e = all_arrived batches refl refl
  claim_from-Returned formats start limit (suc left) offset batches w e =
      let claimed = tasks_of batches in
      elim (claim_from-step (recorded queue) formats start limit left offset claimed
        (answers batches, w) e) [
          | inl q ↦ subst (λ y. Returned y.0 y.1.0) (sym q) (all_arrived batches refl refl)
          | inr (inl (f, r, (a, q))) ↦
              subst (λ y. Returned y.0 y.1.0) (sym q)
                (failed-Returned batches claimed (queue f (limit - length claimed) w).0 r refl a)
          | inr (inr (f, tasks, (a, q))) ↦
              let w' = (queue f (limit - length claimed) w).1 in
              let next = claim_from (recorded queue) formats start limit left (suc offset) in
              let moved =
                ap (λ o. next (claimed ++ tasks) (answers batches ++ (o ∷ []), w')) a
                ∙ ap (λ l. next (claimed ++ tasks) (l, w')) (sym (answers-append batches tasks))
                ∙ ap (λ l. next l (answers (batches ++ (tasks ∷ [])), w'))
                    (sym (tasks_of-append batches tasks)) in
              subst (λ y. Returned y.0 y.1.0) (sym (q ∙ moved))
                (claim_from-Returned formats start limit left (suc offset) (batches ++ (tasks ∷ []))
                  w' (omega (arith, e)))
        ]

  -- Every task of a claim whose answer arrives is in the batch that the poller returns, in order, also when
  -- a later claim fails or times out. Only the last claim of a round can fail; the poller returns its error
  -- if the others brought no tasks. What such a claim may have leased is not known to the poller.
  pub claim-Returned :
      (p : Poller) (limit : ℕ) (w : W)
      → let (out, p', (log, w')) = claim (recorded queue) p limit ([], w) in Returned out log
  unfolding claim
  claim-Returned p limit w =
      claim_from-Returned p.formats p.next_format_start limit (length p.formats) 0 [] w
        (omega arith)
