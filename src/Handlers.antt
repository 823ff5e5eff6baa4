-- ===== src/Handlers.antt =====
-- internal/handlers and internal/models: what the API server answers.
mod Responses
mod Context
mod Parameters
mod Status
mod Run
mod Catalog
mod Admin
mod Health
pub mod Gate
pub mod Owned
pub mod Absent
pub mod Forwarded
pub use Responses.*
pub use Context.{Request, Response, Exchange, Outcome, H, GoError, send}
unfoldable pub use Context.{serve}
unfoldable pub use Parameters.*
unfoldable pub use Status.*
unfoldable pub use Run.*
pub use Catalog.{TtlView}
unfoldable pub use Catalog.{
  template_ttl, available_row, template_named, list_available, list_user_environments,
}
unfoldable pub use Admin.*
unfoldable pub use Health.*
