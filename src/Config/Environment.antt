-- ===== src/Config/Environment.antt =====
-- The settings as the process environment gives them (account-managements-service/src/config.rs).
use account_management_servi.Base.{
  ℕ, ◌≡◌, refl, ◌≢◌, ◌⊎◌, inl, inr, Bool-cases, Option, none, some, List, [], ◌∷◌, Text, text,
  text_eq, text_eq_iff, text_eq_refl, In, Result, ok, err, Result-cases, arith, sym, ap, ◌∙◌,
}
use mathlib.Core.Path.{subst}
use account_management_servi.Config.{Lookup, read_u64}
use account_management_servi.Config.Storage as Storage
use account_management_servi.Config.WorkerPool as WorkerPool
use account_management_servi.Config.TaskRuntime as TaskRuntime
use account_management_servi.Config.TaskQueue as TaskQueue
use account_management_servi.Config.Logging as Logging
use account_management_servi.Config.Service.{
  VarError, not_present, not_unicode, env_keys, Settings, get, collect, from_environment,
  from_lookup,
}

-- The values that are present.
abbrev pub value_of : Result VarError Text → Option Text
value_of (ok value) = some value
value_of (err e) = none

abbrev pub present : (Text → Result VarError Text) → Lookup
present read name = value_of (read name)

module _ (read : Text → Result VarError Text) where
  -- What has been collected of a name.
  abbrev Collected : Text → Settings → Type 0
  Collected name settings = get settings name ≡ present read name

  read_cases :
      (name : Text)
      → ((value : Text) × (read name ≡ ok value))
        ⊎ ((read name ≡ err not_present) ⊎ (read name ≡ err not_unicode))
  read_cases name = elim (Result-cases (read name)) [
    | inr found ↦ inl found
    | inl (not_present, h) ↦ inr (inl h)
    | inl (not_unicode, h) ↦ inr (inr h)
  ]

  module _ (name key value : Text) (settings : Settings) (h : read key ≡ ok value) where
    inserted : (name ≡ key) ⊎ (get ((key, value) ∷ settings) name ≡ get settings name)
    unfolding get
    inserted = elim (Bool-cases (text_eq key name)) [
      | inl same ↦ inl (sym ((text_eq_iff key name).0 same))
      | inr other ↦ inr (ground (arith, other))
    ]

    found : name ≡ key → Collected name ((key, value) ∷ settings)
    unfolding get
    found e =
        subst (λ x. Collected x ((key, value) ∷ settings)) (sym e)
          (rw (text_eq_refl key) (sym (ap value_of h)))

    start_after :
        (get settings name ≡ none) ⊎ Collected name settings
        → (get ((key, value) ∷ settings) name ≡ none) ⊎ Collected name ((key, value) ∷ settings)
    start_after start = elim inserted [
      | inl e ↦ inr (found e)
      | inr k ↦ elim start [ inl n ↦ inl (k ∙ n) | inr c ↦ inr (k ∙ c) ]
    ]

    todo_after :
        (names : List Text)
        → In name (key ∷ names) ⊎ Collected name settings
        → In name names ⊎ Collected name ((key, value) ∷ settings)
    todo_after names (inl (inl e)) = inr (found e)
    todo_after names (inl (inr m)) = inl m
    todo_after names (inr c) = elim inserted [ inl e ↦ inr (found e) | inr k ↦ inr (k ∙ c) ]

  missing_after :
      (name key : Text) (names : List Text) (settings : Settings)
      → read key ≡ err not_present
      → (get settings name ≡ none) ⊎ Collected name settings
      → In name (key ∷ names) ⊎ Collected name settings
      → In name names ⊎ Collected name settings
  missing_after name key names settings h start (inl (inr m)) = inl m
  missing_after name key names settings h start (inr c) = inr c
  missing_after name key names settings h (inr c) (inl (inl e)) = inr c
  missing_after name key names settings h (inl n) (inl (inl e)) =
      inr (n ∙ sym (ap value_of (subst (λ x. read x ≡ err not_present) (sym e) h)))

  collects :
      (names : List Text) (settings : Settings)
      → ((key : Text) → In key names → read key ≢ err not_unicode)
      → (done : Settings) × (collect read names settings ≡ ok done)
  unfolding collect
  collects [] settings readable = (settings, refl)
  collects (key ∷ names) settings readable = elim (read_cases key) [
    | inl (value, h) ↦
        rw (h, collect) (collects names ((key, value) ∷ settings) (λ k m. readable k (inr m)))
    | inr (inl h) ↦ rw (h, collect) (collects names settings (λ k m. readable k (inr m)))
    | inr (inr h) ↦ absurd (readable key (inl refl) h)
  ]

  collect-Collected :
      (names : List Text) (name : Text) (settings done : Settings)
      → collect read names settings ≡ ok done
      → (get settings name ≡ none) ⊎ Collected name settings
      → In name names ⊎ Collected name settings
      → Collected name done
  unfolding collect
  collect-Collected [] name settings done h start (inl m) = absurd m
  collect-Collected [] name settings done h start (inr c) =
      subst (Collected name) (ground (arith, h)) c
  collect-Collected (key ∷ names) name settings done h start todo = elim (read_cases key) [
    | inl (value, r) ↦
        collect-Collected names name ((key, value) ∷ settings) done (ground (arith, r, h))
          (start_after name key value settings r start)
          (todo_after name key value settings r names todo)
    | inr (inl r) ↦
        collect-Collected names name settings done (ground (arith, r, h)) start
          (missing_after name key names settings r start todo)
    | inr (inr r) ↦ absurd (ground (arith, r, h))
  ]

module _ (l m : Lookup) (same : (name : Text) → In name env_keys → l name ≡ m name) where
  read_same :
      (name : Text) (default : ℕ)
      → In name env_keys
      → read_u64 l name default ≡ read_u64 m name default
  unfolding read_u64
  read_same name default k = rw (same name k, read_u64) refl

  task_runtime_same : TaskRuntime.from_lookup l ≡ TaskRuntime.from_lookup m
  unfolding TaskRuntime.from_lookup Storage.from_lookup WorkerPool.from_lookup
  task_runtime_same =
      rw
        (
          read_same (text "OUTBOX_STORAGE_TIMEOUT_MS") 6_000 (inr (inr (inr (inl refl)))),
          read_same (text "OUTBOX_WORKER_CONCURRENCY") 128 (inr (inr (inr (inr (inl refl))))),
          read_same (text "OUTBOX_QUEUE_CAPACITY") 128 (inr (inr (inr (inr (inr (inl refl)))))),
          read_same (text "OUTBOX_POLL_INTERVAL_MS") 1_000
              (inr (inr (inr (inr (inr (inr (inl refl))))))),
          read_same (text "OUTBOX_HANDLER_TIMEOUT_SECS") 15
              (inr (inr (inr (inr (inr (inr (inr (inl refl)))))))),
          read_same (text "OUTBOX_LEASE_SECS") 60
              (inr (inr (inr (inr (inr (inr (inr (inr (inl refl))))))))),
        )
        refl

  task_queue_same : TaskQueue.from_lookup l ≡ TaskQueue.from_lookup m
  unfolding TaskQueue.from_lookup
  task_queue_same =
      rw
        (read_same (text "OUTBOX_POSTGRES_STATEMENT_TIMEOUT_MS") 4_000
          (inr (inr (inr (inr (inr (inr (inr (inr (inr (inl refl)))))))))))
        refl

  module _ {D A L : Type 0} (parse_database : Text → Option D) (parse_address : Text → Option A)
      (parse_level : Text → Option L) where
    logging_same : Logging.from_lookup parse_level l ≡ Logging.from_lookup parse_level m
    unfolding Logging.from_lookup
    logging_same = rw (same (text "RUST_LOG") (inr (inr (inl refl)))) refl

    from_lookup_same :
        from_lookup parse_database parse_address parse_level l
        ≡ from_lookup parse_database parse_address parse_level m
    unfolding from_lookup
    from_lookup_same =
        rw
          (
            same (text "DATABASE_URL") (inl refl),
            same (text "BIND_ADDRESS") (inr (inl refl)),
            logging_same,
            task_runtime_same,
            task_queue_same,
          )
          refl

module _ {D A L : Type 0} (parse_database : Text → Option D) (parse_address : Text → Option A)
    (parse_level : Text → Option L) where
  -- When none of the ten settings holds a value that is not Unicode, the configuration is the one of a
  -- lookup in the whole environment: every setting that any part reads is among those that are
  -- collected first, and the collection keeps each value.
  pub from_environment_lem :
      (read : Text → Result VarError Text)
      → ((key : Text) → In key env_keys → read key ≢ err not_unicode)
      → from_environment parse_database parse_address parse_level read
        ≡ from_lookup parse_database parse_address parse_level (present read)
  unfolding from_environment get
  from_environment_lem read readable =
      let (done, h) = collects read env_keys [] readable in
      rw h (
        from_lookup_same (get done) (present read)
          (λ name k. collect-Collected read env_keys name [] done h (inl refl) (inl k))
          parse_database parse_address parse_level)
