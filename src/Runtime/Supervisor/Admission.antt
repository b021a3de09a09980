-- ===== src/Runtime/Supervisor/Admission.antt =====
-- The room of the channel and the places of the workers (cqrs-runtime/src/runtime/supervisor.rs).
use account_management_servi.Base.{
  ℕ, zero, suc, ◌+◌, ◌-◌, ◌≤◌, ◌≡◌, ◌≢◌, refl, true, false, inl, inr, List, [], ◌∷◌, ◌++◌, Result,
  ok, err, arith, length, length-append, length-map, Bool, if◌then◌else◌, Bool-cases, ◌==◌, ltb,
  leb, ◌&&◌, not,
}
use mathlib.Core.Path.{subst}
use account_management_servi.Task.Queue.{TaskProcessingError}
use account_management_servi.Runtime.Supervisor.{
  Pool, Phase, Worker, selecting, recovering, draining, returned, asserted, claiming, set, start,
  Step, cancels, breaks, breaks_claim, restarts, gives_up_restart, ticks, admits, answers, receives,
  clears, begins, discards, settles, crashes, leaves, returns_drained, Steps, done, also, admit,
  send_all, deliver, drain, idle, exited, holding, cleared, running, become, fail,
}

-- What the phase leaves room for in a channel that holds `used` tasks.
Room : ℕ → ℕ → Phase → Type 0
Room capacity used (claiming limit) = used + limit ≤ capacity
Room capacity used asserted = ⊥
Room capacity used _ = used ≤ capacity

record IsSound {T : Type 0} (capacity concurrency : ℕ) (p : Pool T) : Type 0 where
  room : Room capacity (length p.buffer) p.phase
  open_until : p.closed ≡ true → p.stopping ≡ true
  places : length p.workers ≡ concurrency

Room-fits : (capacity used : ℕ) (x : Phase) → Room capacity used x → used ≤ capacity
unfolding Room
Room-fits capacity used selecting h = h
Room-fits capacity used recovering h = h
Room-fits capacity used draining h = h
Room-fits capacity used returned h = h
Room-fits capacity used asserted h = absurd h
Room-fits capacity used (claiming limit) h = omega (arith, h)

-- A task leaves the channel.
Room-less : (capacity used : ℕ) (x : Phase) → Room capacity (suc used) x → Room capacity used x
unfolding Room
Room-less capacity used selecting h = omega (arith, h)
Room-less capacity used recovering h = omega (arith, h)
Room-less capacity used draining h = omega (arith, h)
Room-less capacity used returned h = omega (arith, h)
Room-less capacity used asserted h = h
Room-less capacity used (claiming limit) h = omega (arith, h)

length-set :
    {T : Type 0} (ws : List (Worker T)) (i : ℕ) (w : Worker T) → length (set ws i w) ≡ length ws
length-set [] i w = refl
length-set (v ∷ vs) zero w = refl
length-set (v ∷ vs) (suc i) w = omega (arith, length-set vs i w)

admit-Room :
    {T : Type 0} (capacity : ℕ) (p : Pool T)
    → length p.buffer ≤ capacity
    → Room capacity (length p.buffer) (admit capacity p).phase
unfolding admit Room
admit-Room capacity p h = elim (Bool-cases ((capacity - length p.buffer) == 0)) [
  | inl full ↦ rw (full) h
  | inr free ↦ rw (free) (omega (arith, h))
]

send_all-IsSound :
    {T : Type 0} (capacity concurrency : ℕ) (ts : List T) (p : Pool T)
    → length p.buffer + length ts ≤ capacity
    → p.closed ≡ false
    → length p.workers ≡ concurrency
    → IsSound capacity concurrency (send_all capacity ts p)
unfolding send_all Room
send_all-IsSound capacity concurrency [] p h c w = record {
  room = omega (arith, h);
  open_until = λ x. absurd (ground (arith, c, x));
  places = w;
}
send_all-IsSound capacity concurrency (t ∷ ts) p h c w =
    let fits : (not p.closed && ltb (length p.buffer) capacity) ≡ true = ground (arith, h, c) in
    rw (fits) (
      send_all-IsSound capacity concurrency ts (record p { buffer = p.buffer ++ (t ∷ []) })
        (omega (arith, h, length-append p.buffer (t ∷ []))) c w)

chosen-IsSound :
    {T : Type 0} (capacity concurrency : ℕ) (stop within : Bool) (x y z : Pool T)
    → stop ≡ false
    → within ≡ true
    → IsSound capacity concurrency y
    → IsSound capacity concurrency (if stop then x else if within then y else z)
chosen-IsSound capacity concurrency true b x y z p q h = absurd (ground (arith, p))
chosen-IsSound capacity concurrency false true x y z p q h = h
chosen-IsSound capacity concurrency false false x y z p q h = absurd (ground (arith, q))

deliver-IsSound :
    {T : Type 0} (capacity concurrency limit : ℕ) (answer : Result TaskProcessingError (List T))
    (p : Pool T)
    → ((ts : List T) → answer ≡ ok ts → length ts ≤ limit)
    → p.phase ≡ claiming limit
    → IsSound capacity concurrency p
    → IsSound capacity concurrency (deliver capacity limit answer p)
unfolding deliver Room
deliver-IsSound capacity concurrency limit (err e) p few x h = record {
  room = Room-fits capacity (length p.buffer) p.phase h.room;
  open_until = h.open_until;
  places = h.places;
}
deliver-IsSound capacity concurrency limit (ok ts) p few x h =
    let n : length ts ≤ limit = few ts refl in
    let room : length p.buffer + limit ≤ capacity =
      subst (λ y. Room capacity (length p.buffer) y) x h.room in
    elim (Bool-cases p.stopping) [
      | inl stop ↦
          rw (stop)
            (record { room = omega (arith, room); open_until = λ _. refl; places = h.places })
      | inr go ↦
          let within : leb (length ts) limit ≡ true = ground (arith, n) in
          let still : p.closed ≡ false = ground (arith, h.open_until, go) in
          chosen-IsSound capacity concurrency p.stopping (leb (length ts) limit) (drain p)
            (send_all capacity ts p) (fail p) go within
            (send_all-IsSound capacity concurrency ts p (omega (arith, room, n)) still h.places)
    ]

module _ {T : Type 0} (capacity concurrency : ℕ)
    (Answers : ℕ → Result TaskProcessingError (List T) → Type 0)
    (honours : (limit : ℕ) (ts : List T) → Answers limit (ok ts) → length ts ≤ limit) where
  become-IsSound :
      (p : Pool T) (i : ℕ) (w : Worker T)
      → IsSound capacity concurrency p
      → IsSound capacity concurrency (become i w p)
  become-IsSound p i w h = record {
    room = h.room;
    open_until = h.open_until;
    places = omega (arith, h.places, length-set p.workers i w);
  }

  admit-IsSound :
      (p : Pool T)
      → IsSound capacity concurrency p
      → IsSound capacity concurrency (admit capacity p)
  unfolding admit
  admit-IsSound p h = record {
    room = admit-Room capacity p (Room-fits capacity (length p.buffer) p.phase h.room);
    open_until = h.open_until;
    places = h.places;
  }

  drain-IsSound :
      (p : Pool T) → IsSound capacity concurrency p → IsSound capacity concurrency (drain p)
  unfolding Room
  drain-IsSound p h = record {
    room = Room-fits capacity (length p.buffer) p.phase h.room;
    open_until = λ _. refl;
    places = h.places;
  }

  Step-IsSound :
      (p q : Pool T)
      → Step capacity Answers p q
      → IsSound capacity concurrency p
      → IsSound capacity concurrency q
  unfolding Room
  Step-IsSound p q (cancels e) h =
      rw (e) (record { room = h.room; open_until = λ _. refl; places = h.places })
  Step-IsSound p q (breaks x s e) h = rw (e) (drain-IsSound p h)
  Step-IsSound p q (breaks_claim limit x s e) h = rw (e) (drain-IsSound p h)
  Step-IsSound p q (restarts i x s w e) h =
      rw (e) (admit-IsSound (become i idle p) (become-IsSound p i idle h))
  Step-IsSound p q (gives_up_restart i x w e) h = rw (e) (drain-IsSound p h)
  Step-IsSound p q (ticks x s e) h = rw (e) (record {
    room = Room-fits capacity (length p.buffer) p.phase h.room;
    open_until = h.open_until;
    places = h.places;
  })
  Step-IsSound p q (admits x s e) h = rw (e) (admit-IsSound p h)
  Step-IsSound p q (answers limit answer x a e) h = rw (e) (
      deliver-IsSound capacity concurrency limit answer p
        (λ ts y. honours limit ts (subst (Answers limit) y a)) x h)
  Step-IsSound p q (receives i t rest w s b e) h = rw (e) (record {
    room =
        Room-less capacity (length rest) p.phase
          (subst (λ y. Room capacity (length y) p.phase) b h.room);
    open_until = h.open_until;
    places = omega (arith, h.places, length-set p.workers i (holding t));
  })
  Step-IsSound p q (clears i t w s e) h = rw (e) (become-IsSound p i (cleared t) h)
  Step-IsSound p q (begins i t w e) h = rw (e) (record {
    room = h.room;
    open_until = h.open_until;
    places = omega (arith, h.places, length-set p.workers i (running t));
  })
  Step-IsSound p q (discards i t w s e) h = rw (e) (become-IsSound p i exited h)
  Step-IsSound p q (settles i t w e) h = rw (e) (become-IsSound p i idle h)
  Step-IsSound p q (crashes i t w e) h = rw (e) (become-IsSound p i exited h)
  Step-IsSound p q (leaves i w x e) h = rw (e) (become-IsSound p i exited h)
  Step-IsSound p q (returns_drained x e) h = rw (e) (record {
    room = Room-fits capacity (length p.buffer) p.phase h.room;
    open_until = h.open_until;
    places = omega (arith, h.places, length-map {B = Worker T} p.workers (λ w. exited));
  })

  Steps-IsSound :
      (p q : Pool T)
      → Steps capacity Answers p q
      → IsSound capacity concurrency p
      → IsSound capacity concurrency q
  Steps-IsSound p q done h = h
  Steps-IsSound p r (also {q = q} steps step) h = Step-IsSound q r step (Steps-IsSound p q steps h)

  -- With a queue that never answers a claim with more tasks than its limit, whatever the supervisor, its
  -- workers and the host do from the start on, the channel holds at most its capacity, each worker
  -- keeps its one place, and neither of the supervisor's assertions fails.
  pub pool_within_capacity :
      (workers : List (Worker T)) (q : Pool T)
      → length workers ≡ concurrency
      → Steps capacity Answers (start workers) q
      → (length q.buffer ≤ capacity) × (length q.workers ≡ concurrency) × (q.phase ≢ asserted)
  unfolding Room
  pool_within_capacity workers q n steps =
      let h =
        Steps-IsSound (start workers) q steps (record {
          room = omega arith;
          open_until = λ x. absurd (ground (arith, x));
          places = n;
        }) in
      (
        Room-fits capacity (length q.buffer) q.phase h.room,
        h.places,
        λ x. subst (λ y. Room capacity (length q.buffer) y) x h.room,
      )
