-- ===== src/Startup/Cleanup.antt =====
-- What the executable leaves behind, whatever the platform answers
-- (account-managements-service/src/main.rs, startup/service.rs).
use account_management_servi.Base.{
  ℕ, ◌≡◌, refl, ◌⊎◌, inl, inr, Bool-cases, List, [], ◌∷◌, ◌++◌, ok, err, Result-cases,
  if◌then◌else◌, leb, take,
}
use account_management_servi.Startup.{
  ServiceError, Action, installs_logger, connects_pool, prepares_tasks, binds_listener, serves,
  closes_pool, reports_stopped, logs, Done, Platform, main, load, prepare, prepare_connected,
  run_until, load_dotenv_with, logging, database, task_preparation, bind, host, dotenv,
  configuration, is_not_found,
}

module _ {P H : Type 0} where
  -- The first `n` steps of the executable.
  abbrev pub steps : ℕ → List (Action P H)
  steps n = take n (installs_logger ∷ connects_pool ∷ prepares_tasks ∷ binds_listener ∷ serves ∷ [])

  -- What has to be closed after them.
  abbrev pub cleanup : ℕ → List (Action P H)
  cleanup n = if leb 2 n then closes_pool ∷ [] else []

  abbrev pub Clean : Done P H (Unit {0}) → Type 0
  Clean (result, done) =
      ((result ≡ ok tt) × (done ≡ steps 5 ++ (cleanup 5 ++ (reports_stopped ∷ []))))
      ⊎ ((e : ServiceError P H) × (n : ℕ) × (result ≡ err e)
          × (done ≡ steps n ++ (cleanup n ++ (logs e ∷ []))))

  module _ {C T : Type 0} (platform : Platform P H C T) where
    abbrev LoadOutcome : Type 0
    LoadOutcome =
        ((config : C) × (load platform ≡ (ok config, [])))
        ⊎ ((e : ServiceError P H) × (load platform ≡ (err e, logs e ∷ [])))

    with_environment : load_dotenv_with {P = P} {H = H} platform.load_dotenv ≡ ok tt → LoadOutcome
    unfolding load
    with_environment d = elim (Result-cases platform.from_env) [
      | inl (e, f) ↦ inr (configuration e, rw (d, f, load) refl)
      | inr (config, f) ↦ inl (config, rw (d, f, load) refl)
    ]

    load-outcome : LoadOutcome
    unfolding load load_dotenv_with
    load-outcome = elim (Result-cases platform.load_dotenv) [
      | inr (u, d) ↦ with_environment (rw d refl)
      | inl (e, d) ↦ elim (Bool-cases (is_not_found e)) [
        | inl n ↦ with_environment (rw (d, n) refl)
        | inr n ↦ inr (dotenv e, rw (d, n, load, load_dotenv_with) refl)
      ]
    ]

    prepare-outcome :
        (config : C)
        → ((tasks : T) × (prepare platform config ≡ (ok tasks, steps 4)))
          ⊎ ((e : ServiceError P H) × (n : ℕ) × (prepare platform config
                ≡ (err e, steps n ++ (cleanup n ++ (logs e ∷ [])))))
    unfolding prepare prepare_connected
    prepare-outcome config = elim (Bool-cases (platform.installs config)) [
      | inr i ↦ inr (logging, 0, rw (i, prepare) refl)
      | inl i ↦ elim (Bool-cases (platform.connects config)) [
        | inr c ↦ inr (database, 1, rw (i, c, prepare) refl)
        | inl c ↦ elim (Result-cases (platform.prepare_task_runtime config)) [
          | inl (e, p) ↦ inr (task_preparation e, 2, rw (i, c, p, prepare, prepare_connected) refl)
          | inr (tasks, p) ↦ elim (Bool-cases (platform.binds config)) [
            | inr b ↦ inr (bind, 3, rw (i, c, p, b, prepare, prepare_connected) refl)
            | inl b ↦ elim (Bool-cases (platform.has_local_address config)) [
              | inr a ↦ inr (bind, 4, rw (i, c, p, b, a, prepare, prepare_connected) refl)
              | inl a ↦ inl (tasks, rw (i, c, p, b, a, prepare, prepare_connected) refl)
            ]
          ]
        ]
      ]
    ]

  -- Whatever fails, the steps are taken in their order up to the failure, the pool is closed exactly once if
  -- it was connected, after the HTTP server and the tasks have ended if they were started, and the error
  -- is logged exactly once, at the end; without a failure the stop is reported. In particular no listener
  -- is bound before the tasks are prepared.
  pub main-Clean : {C T : Type 0} (platform : Platform P H C T) → Clean (main platform)
  unfolding main run_until
  main-Clean platform = elim (load-outcome platform) [
    | inr (e, l) ↦ rw (l, main) (inr (e, 0, refl, refl))
    | inl (config, l) ↦ elim (prepare-outcome platform config) [
      | inr (e, n, p) ↦ rw (l, p, main) (inr (e, n, refl, refl))
      | inl (tasks, p) ↦ elim (Result-cases (platform.hosted tasks)) [
        | inl (e, h) ↦ rw (l, p, h, main, run_until) (inr (host e, 5, refl, refl))
        | inr (u, h) ↦ rw (l, p, h, main, run_until) (inl (refl, refl))
      ]
    ]
  ]
