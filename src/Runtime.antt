-- ===== src/Runtime.antt =====
-- The worker pool of the task runtime and its preparation (cqrs-runtime/src/runtime).
pub mod PoolConfig
pub mod Poller
pub mod Preparation
pub mod Supervisor
pub mod WorkerPool
