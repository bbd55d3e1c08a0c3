-- ===== src/Transfers.antt =====
-- Transfers of files between accounts (internal/storage/transfers.go, internal/models/transfer.go).
pub mod Transfer
pub mod Store
pub mod Changes
pub mod Answered
pub mod Kept
pub mod Sent
pub mod Final
pub mod Tests
