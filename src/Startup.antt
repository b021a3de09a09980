-- ===== src/Startup.antt =====
-- The executable: its configuration, its preparation and its run
-- (account-managements-service/src/main.rs, startup/service.rs, startup/environment.rs, startup/error.rs, config.rs).
-- What the platform answers is an input, and each function gives what it did in order, up to the first
-- failure. Of the errors of libraries the contents are left out.
pub mod Cleanup
use account_management_servi.Base.{
  Bool, true, false, List, [], ◌∷◌, ◌++◌, Text, text, if◌then◌else◌, Result, ok, err, ◌>>=◌, ◌>>◌,
  map_err,
}
use account_management_servi.Config.Service.{ServiceConfigError}

pub data DotenvError : Type 0 where
  not_found line_parse io : DotenvError

abbrev pub is_not_found : DotenvError → Bool
is_not_found not_found = true
is_not_found _ = false

-- `P` is the error of a worker's setup, `H` that of the host.
module _ (P H : Type 0) where
  pub data ServiceError : Type 0 where
    dotenv : DotenvError → ServiceError
    configuration : ServiceConfigError → ServiceError
    logging database : ServiceError
    task_preparation : P → ServiceError
    bind : ServiceError
    host : H → ServiceError

  pub data Action : Type 0 where
    installs_logger connects_pool prepares_tasks binds_listener serves : Action
    closes_pool reports_stopped : Action
    logs : ServiceError → Action

  abbrev pub Done : Type 0 → Type 0
  Done A = Result ServiceError A × List Action

  -- The platform's answers. `C` is a checked configuration, `T` a prepared task runtime.
  pub record Platform (C T : Type 0) : Type 0 where
    pub load_dotenv : Result DotenvError (Unit {0})
    pub from_env : Result ServiceConfigError C
    pub installs : C → Bool
    pub connects : C → Bool
    pub prepare_task_runtime : C → Result P T
    pub binds : C → Bool
    pub has_local_address : C → Bool
    pub hosted : T → Result H (Unit {0})

module _ {P H : Type 0} where
  unfoldable pub stage : ServiceError P H → Text
  stage (dotenv e) = text "dotenv"
  stage (configuration e) = text "configuration"
  stage logging = text "logging"
  stage database = text "database"
  stage (task_preparation e) = text "task_preparation"
  stage bind = text "http_bind"
  stage (host e) = text "host"

  abbrev pub and_then : {A B : Type 0} → Done P H A → (A → Done P H B) → Done P H B
  and_then (err e, done) f = (err e, done)
  and_then (ok a, done) f = let (result, more) = f a in (result, done ++ more)

  -- A call whose success is an action.
  abbrev pub attempt : {A : Type 0} → Result (ServiceError P H) A → Action P H → Done P H A
  attempt (ok a) action = (ok a, action ∷ [])
  attempt (err e) action = (err e, [])

  abbrev pub succeeds : Bool → ServiceError P H → Result (ServiceError P H) (Unit {0})
  succeeds true e = ok tt
  succeeds false e = err e

  -- `if let Err(error) = &result { error.log() }`.
  abbrev pub or_log : {A : Type 0} → Done P H A → Done P H A
  or_log (ok a, done) = (ok a, done)
  or_log (err e, done) = (err e, done ++ (logs e ∷ []))

  -- `if result.is_err() { pool.close().await }`.
  abbrev pub or_close : {A : Type 0} → Done P H A → Done P H A
  or_close (ok a, done) = (ok a, done)
  or_close (err e, done) = (err e, done ++ (closes_pool ∷ []))

  unfoldable pub load_dotenv_with :
      Result DotenvError (Unit {0}) → Result (ServiceError P H) (Unit {0})
  load_dotenv_with (ok u) = ok tt
  load_dotenv_with (err e) = if is_not_found e then ok tt else err (dotenv e)

  module _ {C T : Type 0} (platform : Platform P H C T) where
    unfoldable pub load : Done P H C
    load =
        or_log
          (load_dotenv_with platform.load_dotenv >> map_err platform.from_env configuration, [])

    unfoldable pub prepare_connected : C → Done P H T
    prepare_connected config = or_close (
        and_then
          (attempt (map_err (platform.prepare_task_runtime config) task_preparation) prepares_tasks)
          λ tasks.
            and_then (attempt (succeeds (platform.binds config) bind) binds_listener)
              λ _. (succeeds (platform.has_local_address config) bind >> ok tasks, []))

    unfoldable pub prepare : C → Done P H T
    prepare config = or_log (
        and_then (attempt (succeeds (platform.installs config) logging) installs_logger) λ _.
          and_then (attempt (succeeds (platform.connects config) database) connects_pool)
            λ _. prepare_connected config)

    -- The pool is closed before the result is reported.
    unfoldable pub run_until : T → Done P H (Unit {0})
    run_until tasks = elim (platform.hosted tasks) [
      | ok u ↦ (ok tt, serves ∷ closes_pool ∷ reports_stopped ∷ [])
      | err e ↦ (err (host e), serves ∷ closes_pool ∷ logs (host e) ∷ [])
    ]

    unfoldable pub main : Done P H (Unit {0})
    main = and_then load λ config. and_then (prepare config) λ service. run_until service
