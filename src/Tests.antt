-- ===== src/Tests.antt =====
-- Concrete runs of the model, and the instances at which the theorems apply.
pub mod Samples
pub mod Http
mod Reservations
mod Accounts
mod Commands
mod Tasks
mod Queue
mod Writes
mod Runtime
mod Supervisor
mod Services
mod Memory
mod Healthy
mod System
mod Config
mod Host
