-- ===== src/Edge.antt =====
-- internal/middleware: what a request has to pass before its handler runs.
pub mod Request
pub mod Account
pub mod Gate
pub mod Limiter
pub mod Passes
mod Tests
