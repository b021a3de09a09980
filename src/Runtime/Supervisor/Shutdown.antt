-- ===== src/Runtime/Supervisor/Shutdown.antt =====
-- The workers after the shutdown token is cancelled (cqrs-runtime/src/runtime/worker.rs).
use account_management_servi.Base.{
  ℕ, zero, suc, ◌+◌, ◌≤◌, ◌≡◌, refl, ap, sym, ◌∙◌, ◌⊎◌, Bool, true, false, if◌then◌else◌, inl, inr,
  some, List, [], ◌∷◌, ◌++◌, map, length, length-append, get_elem?, In, Result, ok, err, arith,
}
use mathlib.Core.Path.{subst}
use mathlib.Core.List.{append-nil, append_assoc}
use account_management_servi.Task.Queue.{TaskProcessingError}
use account_management_servi.Runtime.Supervisor.{
  Worker, idle, exited, holding, cleared, running, set, Pool, Step, cancels, breaks, breaks_claim,
  restarts, gives_up_restart, ticks, admits, answers, receives, clears, begins, discards, settles,
  crashes, leaves, returns_drained, Steps, done, also, admit, deliver, drain,
}

-- How many workers are about to hand a delivery over.
abbrev pub handing : {T : Type 0} → Worker T → ℕ
handing idle = 0
handing exited = 0
handing (holding t) = 0
handing (cleared t) = 1
handing (running t) = 0

abbrev pub clearances : {T : Type 0} → List (Worker T) → ℕ
clearances [] = 0
clearances (w ∷ ws) = handing w + clearances ws

module _ {T : Type 0} where
  -- The token stays cancelled, and all that is handed over was with a worker that had tested the token before.
  pub record IsQuiet (p q : Pool T) : Type 0 where
    pub stays : q.stopping ≡ true
    pub handed : List T
    pub started : q.started ≡ p.started ++ handed
    pub from_cleared : (t : T) → In t handed → In (cleared t) p.workers
    pub no_more : (t : T) → In (cleared t) q.workers → In (cleared t) p.workers
    pub few : length handed + clearances q.workers ≤ clearances p.workers

  set-In :
      (t : T) (w : Worker T) (ws : List (Worker T)) (i : ℕ)
      → handing w ≡ 0
      → In (cleared t) (set ws i w)
      → In (cleared t) ws
  set-In t w [] i h m = m
  set-In t w (v ∷ vs) zero h (inl e) =
      absurd (ground (arith, h, ap (λ (x : Worker T). handing x) e))
  set-In t w (v ∷ vs) zero h (inr m) = inr m
  set-In t w (v ∷ vs) (suc i) h (inl e) = inl e
  set-In t w (v ∷ vs) (suc i) h (inr m) = inr (set-In t w vs i h m)

  clearances-set :
      (w : Worker T) (ws : List (Worker T)) (i : ℕ)
      → handing w ≡ 0
      → clearances (set ws i w) ≤ clearances ws
  clearances-set w [] i h = omega arith
  clearances-set w (v ∷ vs) zero h = omega (arith, h)
  clearances-set w (v ∷ vs) (suc i) h = omega (arith, clearances-set w vs i h)

  clearances-begun :
      (t : T) (ws : List (Worker T)) (i : ℕ)
      → get_elem? ws i ≡ some (cleared t)
      → (In (cleared t) ws) × (1 + clearances (set ws i (running t)) ≤ clearances ws)
  clearances-begun t [] i h = absurd (ground (arith, h))
  clearances-begun t (v ∷ vs) zero h =
      let e : v ≡ cleared t = ground (arith, h) in
      (inl (sym e), omega (arith, ap (λ (x : Worker T). handing x) e))
  clearances-begun t (v ∷ vs) (suc i) h =
      let (m, n) = clearances-begun t vs i h in (inr m, omega (arith, n))

  all_exited :
      (ws : List (Worker T))
      → (clearances {T = T} (map (λ w. exited) ws) ≡ 0)
        × ((t : T) → In (cleared t) (map (λ w. exited) ws) → In (cleared t) ws)
  all_exited [] = (refl, λ t m. m)
  all_exited (w ∷ ws) =
      let (n, k) = all_exited ws in
      (
        omega (arith, n),
        λ t m. elim m [
          | inl e ↦ absurd (ground (arith, ap (λ (x : Worker T). handing x) e))
          | inr m ↦ inr (k t m)
        ],
      )

  nothing_handed :
      (p q : Pool T)
      → q.stopping ≡ true
      → q.started ≡ p.started
      → ((t : T) → In (cleared t) q.workers → In (cleared t) p.workers)
      → clearances q.workers ≤ clearances p.workers
      → IsQuiet p q
  nothing_handed p q s e k n = record {
    stays = s;
    handed = [];
    started = e ∙ sym (append-nil p.started);
    from_cleared = λ t m. absurd m;
    no_more = k;
    few = omega (arith, n);
  }

  nothing_changed :
      (p q : Pool T)
      → q.stopping ≡ true
      → q.started ≡ p.started
      → q.workers ≡ p.workers
      → IsQuiet p q
  nothing_changed p q s e w =
      nothing_handed p q s e (λ t m. subst (In (cleared t)) w m)
        (omega (arith, ap (λ (ws : List (Worker T)). clearances ws) w))

  placed :
      (p q : Pool T) (i : ℕ) (w : Worker T)
      → q.stopping ≡ true
      → q.started ≡ p.started
      → q.workers ≡ set p.workers i w
      → handing w ≡ 0
      → IsQuiet p q
  placed p q i w s e ws h =
      nothing_handed p q s e (λ t m. set-In t w p.workers i h (subst (In (cleared t)) ws m))
        (omega
          (arith, clearances-set w p.workers i h, ap (λ (vs : List (Worker T)). clearances vs) ws))

  begun :
      (p q : Pool T) (i : ℕ) (t : T)
      → q.stopping ≡ true
      → get_elem? p.workers i ≡ some (cleared t)
      → q.started ≡ p.started ++ (t ∷ [])
      → q.workers ≡ set p.workers i (running t)
      → IsQuiet p q
  begun p q i t s g e ws =
      let (m, n) = clearances-begun t p.workers i g in
      record {
        stays = s;
        handed = t ∷ [];
        started = e;
        from_cleared = λ u k. elim k [
          | inl same ↦ subst (λ x. In (cleared x) p.workers) (sym same) m
          | inr none_left ↦ absurd none_left
        ];
        no_more = λ u k. set-In u (running t) p.workers i refl (subst (In (cleared u)) ws k);
        few = omega (arith, n, ap (λ (vs : List (Worker T)). clearances vs) ws);
      }

  In-append : (t : T) (xs ys : List T) → In t (xs ++ ys) → In t xs ⊎ In t ys
  In-append t [] ys m = inr m
  In-append t (x ∷ xs) ys (inl e) = inl (inl e)
  In-append t (x ∷ xs) ys (inr m) = elim (In-append t xs ys m) [
    | inl k ↦ inl (inr k)
    | inr k ↦ inr k
  ]

  IsQuiet-trans : (p q r : Pool T) → IsQuiet p q → IsQuiet q r → IsQuiet p r
  IsQuiet-trans p q r a b = record {
    stays = b.stays;
    handed = a.handed ++ b.handed;
    started =
        b.started ∙ ap (λ xs. xs ++ b.handed) a.started ∙ append_assoc p.started a.handed b.handed;
    from_cleared = λ t m. elim (In-append t a.handed b.handed m) [
      | inl k ↦ a.from_cleared t k
      | inr k ↦ a.no_more t (b.from_cleared t k)
    ];
    no_more = λ t m. a.no_more t (b.no_more t m);
    few = omega (arith, a.few, b.few, length-append a.handed b.handed);
  }

module _ {T : Type 0} (capacity : ℕ)
    (Answers : ℕ → Result TaskProcessingError (List T) → Type 0) where
  stopped-IsQuiet :
      (p x y : Pool T) (b : Bool) → b ≡ true → IsQuiet p x → IsQuiet p (if b then x else y)
  stopped-IsQuiet p x y true h q = q
  stopped-IsQuiet p x y false h q = absurd (ground (arith, h))

  deliver-IsQuiet :
      (limit : ℕ) (answer : Result TaskProcessingError (List T)) (p : Pool T)
      → p.stopping ≡ true
      → IsQuiet p (deliver capacity limit answer p)
  unfolding deliver
  deliver-IsQuiet limit (err e) p h = nothing_changed p _ h refl refl
  deliver-IsQuiet limit (ok tasks) p h =
      stopped-IsQuiet p (drain p) _ p.stopping h (nothing_changed p _ refl refl refl)

  Step-IsQuiet : (p q : Pool T) → Step capacity Answers p q → p.stopping ≡ true → IsQuiet p q
  unfolding admit
  Step-IsQuiet p q (cancels e) h = rw (e) (nothing_changed p _ refl refl refl)
  Step-IsQuiet p q (breaks x s e) h = rw (e) (nothing_changed p _ refl refl refl)
  Step-IsQuiet p q (breaks_claim limit x s e) h = rw (e) (nothing_changed p _ refl refl refl)
  Step-IsQuiet p q (restarts i x s w e) h = absurd (ground (arith, h, s))
  Step-IsQuiet p q (gives_up_restart i x w e) h = rw (e) (nothing_changed p _ refl refl refl)
  Step-IsQuiet p q (ticks x s e) h = absurd (ground (arith, h, s))
  Step-IsQuiet p q (admits x s e) h = absurd (ground (arith, h, s))
  Step-IsQuiet p q (answers limit answer x a e) h = rw (e) (deliver-IsQuiet limit answer p h)
  Step-IsQuiet p q (receives i t rest w s b e) h = absurd (ground (arith, h, s))
  Step-IsQuiet p q (clears i t w s e) h = absurd (ground (arith, h, s))
  Step-IsQuiet p q (begins i t w e) h = rw (e) (begun p _ i t h w refl refl)
  Step-IsQuiet p q (discards i t w s e) h = rw (e) (placed p _ i exited h refl refl refl)
  Step-IsQuiet p q (settles i t w e) h = rw (e) (placed p _ i idle h refl refl refl)
  Step-IsQuiet p q (crashes i t w e) h = rw (e) (placed p _ i exited h refl refl refl)
  Step-IsQuiet p q (leaves i w x e) h = rw (e) (placed p _ i exited h refl refl refl)
  Step-IsQuiet p q (returns_drained x e) h =
      let (n, k) = all_exited p.workers in rw (e) (nothing_handed p _ h refl k (omega (arith, n)))

  -- Once the token is cancelled it stays cancelled, and however the supervisor, its workers and the host
  -- go on, every delivery still handed to the executor is one that a worker was about to hand over at that
  -- time, having found the token not cancelled before; and at most as many are handed over as there were
  -- such workers.
  pub shutdown-IsQuiet :
      (p q : Pool T) → p.stopping ≡ true → Steps capacity Answers p q → IsQuiet p q
  shutdown-IsQuiet p q h done = nothing_changed p p h refl refl
  shutdown-IsQuiet p r h (also {q = q} steps step) =
      let a = shutdown-IsQuiet p q h steps in IsQuiet-trans p q r a (Step-IsQuiet q r step a.stays)
