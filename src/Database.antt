-- ===== src/Database.antt =====
-- internal/dbworker and internal/repository: the worker that writes what the engine emits to the
-- database.
pub mod Result
pub mod Rows
pub mod Queries
pub mod Settlement
pub mod Worker
