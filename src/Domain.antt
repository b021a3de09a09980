-- ===== src/Domain.antt =====
-- The domain of account-managements-service/src/domain: its values and its two aggregates.
pub mod Email
pub mod Profile
pub mod EmailReservation
pub mod UserAccount
