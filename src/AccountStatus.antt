-- ===== src/AccountStatus.antt =====
-- internal/accountstatus/accountstatus.go: the status of an account, and what it allows.
pub mod Text
pub mod Status
pub mod Laws
mod Tests
