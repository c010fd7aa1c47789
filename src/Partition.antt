-- ===== src/Partition.antt =====
-- internal/partition: which engine works on which event.
pub mod Router
pub mod Redis
pub mod Lease
pub mod Fencing
