-- ===== src/Cleanup.antt =====
-- internal/services/cleanup.go: blobs and chunk directories that nothing refers to.
pub mod Service
pub mod Blobs
pub mod Live
pub mod Chunks
pub mod Race
mod Tests
