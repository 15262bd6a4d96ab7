-- ===== src/Db.antt =====
-- db: models and updates over bun, and the connection to Postgres.
pub mod Model
pub mod Repository
pub mod Postgres
