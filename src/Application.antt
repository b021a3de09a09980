-- ===== src/Application.antt =====
-- The application services of account-managements-service/src/application, and the gateways that they use.
pub mod Gateways
pub mod Tasks
pub mod Reservations
pub mod Registration
