-- ===== src/Engine.antt =====
-- internal/engine: the matching engine.
pub mod Types
pub mod Ledger
pub mod Matching
pub mod Book
pub mod Events
pub mod Outbox
pub mod Orders
pub mod Depth
pub mod Undated
pub mod Handlers
pub mod Commands
