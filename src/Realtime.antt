-- ===== src/Realtime.antt =====
-- internal/realtime: events for the sockets of one replica.
pub mod Conn
pub mod Hub
pub mod Order
pub mod Closed
pub mod Delivered
mod Tests
