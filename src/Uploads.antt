-- ===== src/Uploads.antt =====
-- internal/storage/upload_sessions.go, internal/storage/filesystem.go and internal/services/upload.go:
-- uploads in chunks, their sessions in the database, and their assembly under a lease.
pub mod Session
pub mod Store
pub mod Outcomes
pub mod Fence
pub mod Requests
pub mod Lease
pub mod Reserved
pub mod Exclusive
pub mod Chunks
pub mod Disk
pub mod Assembly
pub mod Serve
pub mod Receive
pub mod Background
pub mod Expiry
pub mod Files
pub mod Finalize
pub mod NewFiles
pub mod Stored
pub mod Calls
pub mod KeepStored
pub mod DropStored
pub mod AlwaysStored
pub mod Live
pub mod Recorded
pub mod Race
pub mod Sealed
pub mod Answers
mod Tests
