-- ===== src/Models.antt =====
-- internal/models: the errors and the records that several components share.
mod Errors
mod Files
pub use Errors.*
unfoldable pub use Files.*
