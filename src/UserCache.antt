-- ===== src/UserCache.antt =====
-- internal/services/user_cache.go: keeping the cache of users in step with CNS.
pub mod Service
pub mod Sync
pub mod Verified
pub mod Limits
mod Tests
