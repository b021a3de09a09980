-- ===== src/Config/Pool.antt =====
-- The settings that the worker pool accepts (cqrs-runtime/src/runtime/worker_pool_config.rs).
use account_management_servi.Base.{
  ℕ, ◌≤◌, ◌≡◌, refl, ◌⊎◌, inl, inr, ◌↔◌, none, some, Option-cases, Text, text, ok, bind-eq_ok,
  map_err-eq_ok, ok-bind, ok-map_err, arith, ◌∙◌, ok_or,
}
use mathlib.Core.Path.{subst}
use account_management_servi.Time.{Duration, from_millis, from_secs, u64_max, checked}
use account_management_servi.Config.{Lookup, read_u64}
use account_management_servi.Config.Numerals.{IsNumeral, parse_u64_iff}
use account_management_servi.Config.WorkerPool as WorkerPool
use account_management_servi.Runtime.PoolConfig.{
  TaskWorkerPoolConfig, IsValid, div_ceil, validate_for_storage_timeout,
  validate_for_storage_timeout_iff,
}
use account_management_servi.Runtime.PoolConfig as PoolConfig

-- What a name is set to: its default when it is not set, else the number that is written.
abbrev pub IsSetting : Lookup → Text → ℕ → ℕ → Type 0
IsSetting lookup name default n =
    ((lookup name ≡ none) × (n ≡ default)) ⊎ ((s : Text) × (lookup name ≡ some s) × IsNumeral s n)

pub read_u64_iff :
    (lookup : Lookup) (name : Text) (default n : ℕ)
    → (read_u64 lookup name default ≡ ok n) ↔ IsSetting lookup name default n
unfolding read_u64
read_u64_iff lookup name default n = elim (Option-cases (lookup name)) [
  | inl e ↦ ground (arith, e)
  | inr (s, e) ↦ (
    λ h. inr (s, e, (parse_u64_iff s n).0 (ground (arith, e, h))),
    λ h. elim h [
      | inl (u, d) ↦ absurd (ground (arith, e, u))
      | inr (s', e', k) ↦ ground (arith, e', (parse_u64_iff s' n).1 k)
    ],
  )
]

-- The limits of a pool, as `new` keeps them.
PoolConfig_new_iff :
    (concurrency queue_capacity : ℕ) (poll handler lease : Duration) (c : TaskWorkerPoolConfig)
    → (PoolConfig.new concurrency queue_capacity poll handler lease ≡ ok c) ↔ (
        IsValid c
        × (concurrency ≡ c.concurrency)
        × (queue_capacity ≡ c.queue_capacity)
        × (poll ≡ c.poll_interval)
        × (handler ≡ c.handler_timeout)
        × (lease ≡ c.lease_duration))
unfolding PoolConfig.new
PoolConfig_new_iff concurrency queue_capacity poll handler lease c = ground arith

-- The settings of a pool.
pub record IsPoolLoaded (lookup : Lookup) (c : TaskWorkerPoolConfig) : Type 0 where
  pub concurrency : IsSetting lookup (text "OUTBOX_WORKER_CONCURRENCY") 128 c.concurrency
  pub queue_capacity : IsSetting lookup (text "OUTBOX_QUEUE_CAPACITY") 128 c.queue_capacity
  pub poll_interval :
      (n : ℕ) × IsSetting lookup (text "OUTBOX_POLL_INTERVAL_MS") 1_000 n
      × (from_millis n ≡ c.poll_interval)
  pub handler_timeout :
      (n : ℕ) × IsSetting lookup (text "OUTBOX_HANDLER_TIMEOUT_SECS") 15 n
      × (from_secs n ≡ c.handler_timeout)
  pub lease_duration :
      (n : ℕ) × IsSetting lookup (text "OUTBOX_LEASE_SECS") 60 n × (from_secs n ≡ c.lease_duration)
  pub limits : IsValid c

read-IsSetting :
    (lookup : Lookup) (name : Text) (default n : ℕ)
    → WorkerPool.read lookup name default ≡ ok n
    → IsSetting lookup name default n
read-IsSetting lookup name default n h =
    (read_u64_iff lookup name default n).0 (map_err-eq_ok _ _ n h)

checked-eq_ok : {E : Type 0} (n m : ℕ) (e : E) → ok_or (checked u64_max n) e ≡ ok m → n ≡ m
checked-eq_ok n m e h = ground (arith, h)

pub pool-IsPoolLoaded :
    (lookup : Lookup) (c : TaskWorkerPoolConfig)
    → WorkerPool.from_lookup lookup ≡ ok c
    → IsPoolLoaded lookup c
unfolding WorkerPool.from_lookup
pool-IsPoolLoaded lookup c h =
    let (workers, r1, h1) = bind-eq_ok _ _ c h in
    let (concurrency, k1, h2) = bind-eq_ok _ _ c h1 in
    let (waiting, r2, h3) = bind-eq_ok _ _ c h2 in
    let (queue_capacity, k2, h4) = bind-eq_ok _ _ c h3 in
    let (poll, r3, h5) = bind-eq_ok _ _ c h4 in
    let (handler, r4, h6) = bind-eq_ok _ _ c h5 in
    let (lease, r5, h7) = bind-eq_ok _ _ c h6 in
    let (valid, e1, e2, e3, e4, e5) = (PoolConfig_new_iff _ _ _ _ _ c).0 h7 in
    record {
      concurrency =
          subst (IsSetting lookup _ 128) (checked-eq_ok workers concurrency _ k1 ∙ e1)
            (read-IsSetting lookup _ 128 workers r1);
      queue_capacity =
          subst (IsSetting lookup _ 128) (checked-eq_ok waiting queue_capacity _ k2 ∙ e2)
            (read-IsSetting lookup _ 128 waiting r2);
      poll_interval = (poll, read-IsSetting lookup _ 1_000 poll r3, e3);
      handler_timeout = (handler, read-IsSetting lookup _ 15 handler r4, e4);
      lease_duration = (lease, read-IsSetting lookup _ 60 lease r5, e5);
      limits = valid;
    }

IsSetting-read :
    (lookup : Lookup) (name : Text) (default n : ℕ)
    → IsSetting lookup name default n
    → WorkerPool.read lookup name default ≡ ok n
IsSetting-read lookup name default n h = ok-map_err _ _ n ((read_u64_iff lookup name default n).1 h)

setting_bounded :
    (lookup : Lookup) (name : Text) (default n : ℕ)
    → default ≤ u64_max
    → IsSetting lookup name default n
    → n ≤ u64_max
setting_bounded lookup name default n b (inl (u, e)) = omega (arith, e, b)
setting_bounded lookup name default n b (inr (s, e, (ds, q, m, d, v, k))) = k

ok-checked : {E : Type 0} (n : ℕ) (e : E) → n ≤ u64_max → ok_or (checked u64_max n) e ≡ ok n
ok-checked n e h = ground (arith, h)

pub IsPoolLoaded-pool :
    (lookup : Lookup) (c : TaskWorkerPoolConfig)
    → IsPoolLoaded lookup c
    → WorkerPool.from_lookup lookup ≡ ok c
unfolding WorkerPool.from_lookup
IsPoolLoaded-pool lookup c h =
    let (poll, r3, e3) = h.poll_interval in
    let (handler, r4, e4) = h.handler_timeout in
    let (lease, r5, e5) = h.lease_duration in
    ok-bind _ _ c.concurrency c (IsSetting-read lookup _ 128 _ h.concurrency) (
      ok-bind _ _ c.concurrency c
        (ok-checked c.concurrency _ (setting_bounded lookup _ 128 _ (omega arith) h.concurrency))
        (ok-bind _ _ c.queue_capacity c (IsSetting-read lookup _ 128 _ h.queue_capacity) (
          ok-bind _ _ c.queue_capacity c
            (ok-checked c.queue_capacity _
              (setting_bounded lookup _ 128 _ (omega arith) h.queue_capacity))
            (ok-bind _ _ poll c (IsSetting-read lookup _ 1_000 poll r3) (
              ok-bind _ _ handler c (IsSetting-read lookup _ 15 handler r4) (
                ok-bind _ _ lease c (IsSetting-read lookup _ 60 lease r5)
                  ((PoolConfig_new_iff _ _ _ _ _ c).1 (h.limits, refl, refl, e3, e4, e5))))))))
