-- ===== src/Users.antt =====
-- internal/storage/users.go: the local cache of CNS users.
pub mod User
pub mod Store
pub mod Tombstone
pub mod Changes
pub mod Final
pub mod Profiles
pub mod Events
pub mod Alive
mod Tests
