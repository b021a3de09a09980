-- ===== src/Postgres.antt =====
-- The PostgreSQL adapter (cqrs-runtime/src/postgres and cqrs-runtime/sql). The SQL of the source is
-- modelled by functions on the rows of its tables.
pub mod Outbox
pub mod Queue
pub mod WritePlan
pub mod Write
pub mod Commands
