-- ===== src/Routes.antt =====
-- The routes of cmd/api/main.go: which handler answers what, behind which middleware.
mod Api
mod App
pub mod Admission
pub mod Created
pub mod Closed
pub use Api.{Route}
pub use App.{Method, Target, Entry}
unfoldable pub use Api.*
unfoldable pub use App.*
