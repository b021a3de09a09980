-- ===== src/Task.antt =====
-- Durable tasks: their data, the queue that owns them, their dispatch and their execution
-- (cqrs-runtime/src/task).
pub mod Data
pub mod Queue
pub mod Budget
pub mod Dispatcher
pub mod Executor
