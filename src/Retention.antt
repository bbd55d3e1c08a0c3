-- ===== src/Retention.antt =====
-- internal/services/retention.go, internal/storage/retention.go, internal/services/cleanup.go: what is
-- deleted for good.
pub mod Batch
pub mod Counts
pub mod Store
pub mod Run
pub mod Kept
pub mod Rounds
pub mod KeptOthers
pub mod KeptFiles
pub mod AlwaysKept
pub mod Drained
mod Tests
