-- ===== src/Command/Retry/Loop.antt =====
-- Which results the retry loop meets (cqrs-runtime/src/command/retry.rs).
use account_management_servi.Base.{
  ℕ, zero, suc, ◌+◌, ◌≤◌, ◌≡◌, refl, ◌⊎◌, inl, inr, true, false, ◌&&◌, Option, some, arith, Result,
  Bool-cases, ltb, List, [], ◌∷◌, ◌++◌, length, length-append, All,
}
use account_management_servi.Command.{AggregateError}
use account_management_servi.Command.Retry.{is_conflict, attempts, retry_on_aggregate_conflict}

-- An operation over a world that counts its runs.
abbrev pub counted : {R W : Type 0} → (W → R × W) → ℕ × W → R × (ℕ × W)
counted operation (k, w) = let (r, w') = operation w in (r, (suc k, w'))

-- An operation over a world that records the results of its runs, oldest first, and a wait over it.
abbrev pub recorded : {R W : Type 0} → (W → R × W) → List R × W → R × (List R × W)
recorded operation (rs, w) = let (r, w') = operation w in (r, (rs ++ (r ∷ []), w'))

abbrev pub asleep : {R W : Type 0} → (ℕ → W → W) → ℕ → List R × W → List R × W
asleep sleep n (rs, w) = (rs, sleep n w)

module _ {T D W : Type 0} (max_attempts : ℕ) where
  -- The loop returned the result of its last run; every run before it met a conflict, no more runs were
  -- made than the limit allows, and the last one met a conflict only if it was the last permitted one.
  abbrev pub Settled :
      Option (Result (AggregateError D) T) × (List (Result (AggregateError D) T) × W) → Type 0
  Settled (out, (runs, w)) =
      (earlier : List (Result (AggregateError D) T)) × (result : Result (AggregateError D) T)
      × (runs ≡ earlier ++ (result ∷ []))
      × (out ≡ some result)
      × All (λ r. is_conflict r ≡ true) earlier
      × (length runs ≤ max_attempts)
      × ((is_conflict result ≡ false) ⊎ (length runs ≡ max_attempts))

  module _ (operation : W → Result (AggregateError D) T × W) (sleep : ℕ → W → W) where
    All-snoc :
        (rs : List (Result (AggregateError D) T)) (r : Result (AggregateError D) T)
        → All (λ r. is_conflict r ≡ true) rs
        → is_conflict r ≡ true
        → All (λ r. is_conflict r ≡ true) (rs ++ (r ∷ []))
    All-snoc [] r h c = (c, tt)
    All-snoc (x ∷ xs) r h c = (h.0, All-snoc xs r h.1 c)

    attempts-Settled :
        (left k : ℕ) (rs : List (Result (AggregateError D) T)) (w : W)
        → k + suc left ≡ max_attempts
        → length rs ≡ k
        → All (λ r. is_conflict r ≡ true) rs
        → Settled
            (attempts max_attempts (recorded operation) (asleep sleep) (suc left) (suc k) (rs, w))
    unfolding attempts
    attempts-Settled zero k rs w h n c =
        let r = (operation w).0 in
        let m = length-append rs (r ∷ []) in
        elim (Bool-cases (is_conflict r && ltb (suc k) max_attempts)) [
          | inl more ↦ absurd (ground arith)
          | inr done ↦
              rw (done, attempts)
                (rs, r, refl, refl, c, omega (arith, m, n, h), inr (omega (arith, m, n, h)))
        ]
    attempts-Settled (suc left) k rs w h n c =
        let r = (operation w).0 in
        let m = length-append rs (r ∷ []) in
        elim (Bool-cases (is_conflict r && ltb (suc k) max_attempts)) [
          | inl more ↦
              rw (more, attempts)
                (attempts-Settled left (suc k) (rs ++ (r ∷ [])) (sleep (suc k) (operation w).1)
                  (omega (arith, h)) (omega (arith, m, n)) (All-snoc rs r c (ground (arith, more))))
          | inr done ↦
              rw (done, attempts)
                (rs, r, refl, refl, c, omega (arith, m, n, h), inl (ground (arith, done, h)))
        ]

    from_first :
        (rounds : ℕ) (w : W)
        → rounds ≡ max_attempts
        → 1 ≤ rounds
        → Settled (attempts max_attempts (recorded operation) (asleep sleep) rounds 1 ([], w))
    from_first zero w e h = elim h [ ]
    from_first (suc left) w e h = attempts-Settled left 0 [] w (omega (arith, e)) refl tt

    -- With a positive attempt limit the loop returns the result of its last run, and each run before that
    -- one met a conflict: it runs the operation at least once and at most as often as the limit allows, and
    -- returns a conflict only if the last permitted run met one.
    pub retry_settles :
        (w : W)
        → 1 ≤ max_attempts
        → Settled
            (retry_on_aggregate_conflict max_attempts (recorded operation) (asleep sleep) ([], w))
    unfolding retry_on_aggregate_conflict
    retry_settles w h = from_first max_attempts w refl h
