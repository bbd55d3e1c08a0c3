-- ===== src/Tunnels.antt =====
-- internal/storage/tunnels.go: quick share sessions between devices.
pub mod Tunnel
pub mod Store
pub mod Changes
pub mod Ended
pub mod Guards
pub mod Others
pub mod Auth
pub mod Access
mod Tests
pub mod Confirm
mod AccessTests
