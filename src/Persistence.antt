-- ===== src/Persistence.antt =====
-- infra/persistence: units of work on the database.
pub mod Transaction
