-- ===== src/Config/Loaded.antt =====
-- The settings that the task runtime accepts (cqrs-runtime/src/runtime/config.rs).
use account_management_servi.Base.{
  ℕ, ◌+◌, ◌*◌, ◌≤◌, ◌<◌, ◌≡◌, refl, inl, inr, ◌↔◌, text, ok, Result-cases, bind-eq_ok,
  map_err-eq_ok, ok-bind, ok-map_err, arith, sym, ap, ◌∙◌,
}
use mathlib.Core.Path.{subst}
use account_management_servi.Time.{Duration, as_millis, from_millis, i64_max}
use account_management_servi.Task.Queue.{lease_safety_margin}
use account_management_servi.Config.{Lookup}
use account_management_servi.Config.Storage.{TaskStorageConfig}
use account_management_servi.Config.Storage as Storage
use account_management_servi.Config.TaskRuntime.{TaskRuntimeConfig, from_lookup, new}
use account_management_servi.Runtime.PoolConfig.{
  TaskWorkerPoolConfig, div_ceil, validate_for_storage_timeout, validate_for_storage_timeout_iff,
}
use account_management_servi.Config.Pool.{
  IsSetting, read_u64_iff, IsPoolLoaded, pool-IsPoolLoaded, IsPoolLoaded-pool,
}

-- The lease that the budget of a pool needs.
abbrev pub IsAffordable : TaskRuntimeConfig → Type 0
IsAffordable c =
    c.storage.storage_timeout * 2
      + c.worker.handler_timeout
      + lease_safety_margin
      + (c.worker.handler_timeout + c.storage.storage_timeout)
        * div_ceil c.worker.queue_capacity c.worker.concurrency
    < c.worker.lease_duration

pub record IsLoaded (lookup : Lookup) (c : TaskRuntimeConfig) : Type 0 where
  pub storage_timeout :
      (n : ℕ) × IsSetting lookup (text "OUTBOX_STORAGE_TIMEOUT_MS") 6_000 n
      × (from_millis n ≡ c.storage.storage_timeout)
  pub storage_positive : 0 < c.storage.storage_timeout
  pub storage_bounded : as_millis c.storage.storage_timeout ≤ i64_max
  pub worker : IsPoolLoaded lookup c.worker
  pub affordable : IsAffordable c

storage_new_iff :
    (d : Duration) (c : TaskStorageConfig)
    → (Storage.new d ≡ ok c) ↔ ((0 < d) × (as_millis d ≤ i64_max) × (d ≡ c.storage_timeout))
unfolding Storage.new
storage_new_iff d c = ground arith

abbrev IsStorageLoaded : Lookup → TaskStorageConfig → Type 0
IsStorageLoaded lookup c =
    ((n : ℕ) × IsSetting lookup (text "OUTBOX_STORAGE_TIMEOUT_MS") 6_000 n
      × (from_millis n ≡ c.storage_timeout))
    × (0 < c.storage_timeout)
    × (as_millis c.storage_timeout ≤ i64_max)

storage-IsStorageLoaded :
    (lookup : Lookup) (c : TaskStorageConfig)
    → Storage.from_lookup lookup ≡ ok c
    → IsStorageLoaded lookup c
unfolding Storage.from_lookup
storage-IsStorageLoaded lookup c h =
    let (n, r, k) = bind-eq_ok _ _ c h in
    let (positive, bounded, e) = (storage_new_iff _ c).0 k in
    (
      (n, (read_u64_iff lookup _ 6_000 n).0 (map_err-eq_ok _ _ n r), e),
      omega (arith, e, positive),
      omega (arith, e, bounded),
    )

IsStorageLoaded-storage :
    (lookup : Lookup) (c : TaskStorageConfig)
    → IsStorageLoaded lookup c
    → Storage.from_lookup lookup ≡ ok c
unfolding Storage.from_lookup
IsStorageLoaded-storage lookup c ((n, r, e), positive, bounded) =
    ok-bind _ _ n c (ok-map_err _ _ n ((read_u64_iff lookup _ 6_000 n).1 r)) (
      (storage_new_iff (from_millis n) c).1
        (omega (arith, e, positive), omega (arith, e, bounded), e))

new_iff :
    (storage : TaskStorageConfig) (worker : TaskWorkerPoolConfig) (c : TaskRuntimeConfig)
    → (new storage worker ≡ ok c) ↔ (
        (validate_for_storage_timeout worker storage.storage_timeout ≡ ok tt)
        × (storage ≡ c.storage)
        × (worker ≡ c.worker))
unfolding new
new_iff storage worker c =
    elim (Result-cases (validate_for_storage_timeout worker storage.storage_timeout)) [
      | inl (e, k) ↦ ground (arith, k)
      | inr (u, k) ↦ ground (arith, k)
    ]

loaded : (lookup : Lookup) (c : TaskRuntimeConfig) → from_lookup lookup ≡ ok c → IsLoaded lookup c
unfolding from_lookup
loaded lookup c h =
    let (storage, s1, h1) = bind-eq_ok _ _ c h in
    let (worker, w1, h2) = bind-eq_ok _ _ c h1 in
    let (valid, e1, e2) = (new_iff storage worker c).0 h2 in
    let (timeout, positive, bounded) =
      subst (IsStorageLoaded lookup) e1
        (storage-IsStorageLoaded lookup storage (map_err-eq_ok _ _ storage s1)) in
    let pool =
      subst (IsPoolLoaded lookup) e2
        (pool-IsPoolLoaded lookup worker (map_err-eq_ok _ _ worker w1)) in
    record {
      storage_timeout = timeout;
      storage_positive = positive;
      storage_bounded = bounded;
      worker = pool;
      affordable =
          (validate_for_storage_timeout_iff c.worker c.storage.storage_timeout pool.limits
              positive).0
            (subst (λ w. validate_for_storage_timeout w c.storage.storage_timeout ≡ ok tt) e2
              (ap (λ (x : TaskStorageConfig). validate_for_storage_timeout worker x.storage_timeout)
                  (sym e1)
                ∙ valid));
    }

load : (lookup : Lookup) (c : TaskRuntimeConfig) → IsLoaded lookup c → from_lookup lookup ≡ ok c
unfolding from_lookup
load lookup c h =
    ok-bind _ _ c.storage c
      (ok-map_err _ _ c.storage (
        IsStorageLoaded-storage lookup c.storage
          (h.storage_timeout, h.storage_positive, h.storage_bounded)))
      (ok-bind _ _ c.worker c (ok-map_err _ _ c.worker (IsPoolLoaded-pool lookup c.worker h.worker))
        ((new_iff c.storage c.worker c).1 (
          (validate_for_storage_timeout_iff c.worker c.storage.storage_timeout h.worker.limits
                h.storage_positive).1
              h.affordable,
          refl,
          refl,
        )))

-- The task runtime's configuration is loaded exactly if the six settings are their defaults or numerals
-- that fit an `u64`, the limits of the pool and of the storage timeout hold, and the lease covers twice
-- the storage timeout, the handler's timeout, the safety margin and every wave of queued deliveries;
-- the configuration then is the one that the settings say.
pub from_lookup_iff :
    (lookup : Lookup) (c : TaskRuntimeConfig) → (from_lookup lookup ≡ ok c) ↔ IsLoaded lookup c
from_lookup_iff lookup c = (loaded lookup c, load lookup c)
