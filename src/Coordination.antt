-- ===== src/Coordination.antt =====
-- internal/storage/coordination.go: what the replicas share through the database.
pub mod Store
pub mod Limits
pub mod Jobs
pub mod Refreshes
mod Tests
