-- ===== src/System/Start.antt =====
-- The task runtime of the service at its start (account-managements-service/src/startup/wiring.rs,
-- cqrs-runtime/src/runtime).
use account_management_servi.Base.{
  ℕ, zero, suc, ◌-◌, ◌<◌, ◌≡◌, refl, false, some, List, [], ◌∷◌, Text, Result, ok, ℤ, arith, ap,
  ◌∙◌, sym, text_eq,
}
use mathlib.Core.Path.{subst}
use account_management_servi.Task.Dispatcher.{TaskDispatcher, TaskDispatcherError}
use account_management_servi.Task.Data.{format_eq}
use account_management_servi.Config.{Lookup}
use account_management_servi.Config.TaskRuntime.{TaskRuntimeConfig, from_lookup}
use account_management_servi.Config.Loaded.{from_lookup_iff}
use account_management_servi.Runtime.PoolConfig.{validate_for_storage_timeout_iff}
use account_management_servi.Runtime.Preparation.{
  formats_eq, prepend, build_checked_dispatcher, build_from, prepare, run, prepared,
}
use account_management_servi.Application.Tasks.{Services, dispatcher_factory}
use account_management_servi.Application.Tasks.Wiring.{dispatcher, dispatcher_factory_lem}

abbrev pub copies : {A : Type 0} → ℕ → A → List A
copies zero a = []
copies (suc n) a = a ∷ copies n a

positive : (n : ℕ) → 0 < n → (m : ℕ) × (n ≡ suc m)
positive zero h = absurd (omega (arith, h))
positive (suc m) h = (m, refl)

module _ {V W S : Type 0} (services : Services V W) (decimal : ℤ → Text) where
  -- The factory of the service, which keeps no state of its own.
  abbrev pub factory : S → Result TaskDispatcherError (TaskDispatcher V W) × S
  factory s = (dispatcher_factory services decimal, s)

  checks :
      (index : ℕ) (s : S)
      → build_checked_dispatcher factory (dispatcher services decimal).formats index s
        ≡ (ok (dispatcher services decimal), s)
  unfolding build_checked_dispatcher formats_eq format_eq text_eq
  checks index s = rw (dispatcher_factory_lem services decimal) refl

  builds :
      (left index : ℕ) (s : S)
      → build_from factory left index (dispatcher services decimal).formats s
        ≡ (ok (copies left (dispatcher services decimal)), s)
  unfolding build_from
  builds zero index s = refl
  builds (suc left) index s = rw (checks index s) (rw (builds left (suc index) s) refl)

  prepare_lem :
      (n : ℕ) (s : S)
      → prepare factory (suc n) s ≡ (ok (copies (suc n) (dispatcher services decimal)), s)
  unfolding prepare
  prepare_lem n s =
      let d = dispatcher services decimal in
      let predecessor : suc n - 1 ≡ n = omega arith in
      rw (dispatcher_factory_lem services decimal)
        (ap (prepend d) (builds (suc n - 1) 1 s) ∙ ap (λ k. (ok (d ∷ copies k d), s)) predecessor)

  -- Under every configuration that is loaded, the supervisor's own check of the budget passes, and the
  -- service's dispatcher is built for each of its workers: a start of the task runtime whose token is not
  -- cancelled fails neither for its configuration nor for the setup of a worker.
  pub run_lem :
      (lookup : Lookup) (c : TaskRuntimeConfig) (s : S)
      → from_lookup lookup ≡ ok c
      → run factory c.worker c.storage.storage_timeout false s
        ≡ (ok (some (copies c.worker.concurrency (dispatcher services decimal))), s)
  unfolding run
  run_lem lookup c s h =
      let l = (from_lookup_iff lookup c).0 h in
      let valid =
        (validate_for_storage_timeout_iff c.worker c.storage.storage_timeout l.worker.limits
            l.storage_positive).1
          l.affordable in
      let (n, e) = positive c.worker.concurrency l.worker.limits.0 in
      rw (valid, run)
        (ap prepared (
          subst (λ k. prepare factory k s ≡ (ok (copies k (dispatcher services decimal)), s))
            (sym e) (prepare_lem n s)))
