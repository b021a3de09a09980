-- ===== src/Runtime/Supervisor.antt =====
-- The supervisor and its workers as steps on their shared state (cqrs-runtime/src/runtime/supervisor.rs, worker.rs,
-- worker_pool.rs): the bounded channel, the shutdown token, and what each worker is doing. The steps of different
-- tasks interleave freely: the worker's test of the token and the call of the executor after it are two steps, since
-- the token can be cancelled in between.
pub mod Admission
pub mod Shutdown
use account_management_servi.Base.{
  ℕ, zero, suc, ◌-◌, ◌≡◌, ◌⊎◌, Bool, true, false, not, ltb, leb, ◌==◌, ◌&&◌, if◌then◌else◌, Option,
  some, List, [], ◌∷◌, ◌++◌, map, length, get_elem?, Result, ok, err,
}
use account_management_servi.Task.Queue.{TaskProcessingError}

-- A worker waits for a delivery, holds one that it has taken from the channel, has found the token not
-- cancelled and is about to hand the delivery over, runs it, or has ended.
pub data Worker (T : Type 0) : Type 0 where
  idle exited : Worker T
  holding cleared running : T → Worker T

-- The supervisor waits in its `select!`, for recovery or for a claim of so many tasks; it drains its
-- workers, has returned, or an assertion has failed.
pub data Phase : Type 0 where
  selecting recovering draining returned asserted : Phase
  claiming : ℕ → Phase

-- `started` records, in order, the deliveries that were handed to the executor.
pub record Pool (T : Type 0) : Type 0 where
  pub phase : Phase
  pub buffer : List T
  pub closed : Bool
  pub workers : List (Worker T)
  pub stopping : Bool
  pub started : List T

-- `spawn` under an index that has one.
abbrev pub set : {T : Type 0} → List (Worker T) → ℕ → Worker T → List (Worker T)
set [] i w = []
set (v ∷ vs) zero w = w ∷ vs
set (v ∷ vs) (suc i) w = v ∷ set vs i w

module _ {T : Type 0} where
  -- The start: every dispatcher has its worker.
  abbrev pub start : List (Worker T) → Pool T
  start workers = record {
    phase = selecting;
    buffer = [];
    closed = false;
    workers = workers;
    stopping = false;
    started = [];
  }

  -- Leaving the loop: the token is cancelled and the channel closed.
  abbrev pub drain : Pool T → Pool T
  drain p = record p { phase = draining; stopping = true; closed = true }

  -- An assertion that fails drops the guard of the token.
  abbrev pub fail : Pool T → Pool T
  fail p = record p { phase = asserted; stopping = true }

  -- After `select!`: the room of the channel is the limit of the next claim.
  unfoldable pub admit : ℕ → Pool T → Pool T
  admit capacity p =
      let limit = capacity - length p.buffer in
      record p { phase = if limit == 0 then selecting else claiming limit }

  -- `try_send` of each claimed task.
  unfoldable pub send_all : ℕ → List T → Pool T → Pool T
  send_all capacity [] p = record p { phase = selecting }
  send_all capacity (t ∷ ts) p =
      if not p.closed && ltb (length p.buffer) capacity
      then send_all capacity ts (record p { buffer = p.buffer ++ (t ∷ []) })
      else fail p

  -- What the loop makes of a claim's answer.
  unfoldable pub deliver : ℕ → ℕ → Result TaskProcessingError (List T) → Pool T → Pool T
  unfolding send_all
  deliver capacity limit (err e) p = record p { phase = selecting }
  deliver capacity limit (ok tasks) p =
      if p.stopping
      then drain p
      else if leb (length tasks) limit
      then send_all capacity tasks p
      else fail p

  abbrev pub become : ℕ → Worker T → Pool T → Pool T
  become i w p = record p { workers = set p.workers i w }

  abbrev pub begin : ℕ → T → Pool T → Pool T
  begin i t p = record p { workers = set p.workers i (running t); started = p.started ++ (t ∷ []) }

-- One step, for a queue whose claims of `limit` tasks may have the answers `Answers limit`.
pub data Step {T : Type 0} (capacity : ℕ)
    (Answers : ℕ → Result TaskProcessingError (List T) → Type 0) (p q : Pool T) : Type 0 where
  cancels : q ≡ record p { stopping = true } → Step capacity Answers p q
  breaks :
      (p.phase ≡ selecting) ⊎ (p.phase ≡ recovering)
      → p.stopping ≡ true
      → q ≡ drain p
      → Step capacity Answers p q
  breaks_claim :
      (limit : ℕ)
      → p.phase ≡ claiming limit
      → p.stopping ≡ true
      → q ≡ drain p
      → Step capacity Answers p q
  restarts :
      (i : ℕ)
      → p.phase ≡ selecting
      → p.stopping ≡ false
      → get_elem? p.workers i ≡ some exited
      → q ≡ admit capacity (become i idle p)
      → Step capacity Answers p q
  gives_up_restart :
      (i : ℕ)
      → p.phase ≡ selecting
      → get_elem? p.workers i ≡ some exited
      → q ≡ drain p
      → Step capacity Answers p q
  ticks :
      p.phase ≡ selecting
      → p.stopping ≡ false
      → q ≡ record p { phase = recovering }
      → Step capacity Answers p q
  admits :
      (p.phase ≡ selecting) ⊎ (p.phase ≡ recovering)
      → p.stopping ≡ false
      → q ≡ admit capacity p
      → Step capacity Answers p q
  answers :
      (limit : ℕ) (answer : Result TaskProcessingError (List T))
      → p.phase ≡ claiming limit
      → Answers limit answer
      → q ≡ deliver capacity limit answer p
      → Step capacity Answers p q
  receives :
      (i : ℕ) (t : T) (rest : List T)
      → get_elem? p.workers i ≡ some idle
      → p.stopping ≡ false
      → p.buffer ≡ t ∷ rest
      → q ≡ record (become i (holding t) p) { buffer = rest }
      → Step capacity Answers p q
  clears :
      (i : ℕ) (t : T)
      → get_elem? p.workers i ≡ some (holding t)
      → p.stopping ≡ false
      → q ≡ become i (cleared t) p
      → Step capacity Answers p q
  begins :
      (i : ℕ) (t : T)
      → get_elem? p.workers i ≡ some (cleared t)
      → q ≡ begin i t p
      → Step capacity Answers p q
  discards :
      (i : ℕ) (t : T)
      → get_elem? p.workers i ≡ some (holding t)
      → p.stopping ≡ true
      → q ≡ become i exited p
      → Step capacity Answers p q
  settles :
      (i : ℕ) (t : T)
      → get_elem? p.workers i ≡ some (running t)
      → q ≡ become i idle p
      → Step capacity Answers p q
  crashes :
      (i : ℕ) (t : T)
      → get_elem? p.workers i ≡ some (running t)
      → q ≡ become i exited p
      → Step capacity Answers p q
  leaves :
      (i : ℕ)
      → get_elem? p.workers i ≡ some idle
      → (p.stopping ≡ true) ⊎ ((p.closed ≡ true) × (p.buffer ≡ []))
      → q ≡ become i exited p
      → Step capacity Answers p q
  returns_drained :
      p.phase ≡ draining
      → q ≡ record p { phase = returned; workers = map (λ w. exited) p.workers }
      → Step capacity Answers p q

-- Any number of steps.
pub data Steps {T : Type 0} (capacity : ℕ)
    (Answers : ℕ → Result TaskProcessingError (List T) → Type 0) (p : Pool T)
    : Pool T → Type 0 where
  done : Steps capacity Answers p p
  also :
      {q r : Pool T}
      → Steps capacity Answers p q
      → Step capacity Answers q r
      → Steps capacity Answers p r
