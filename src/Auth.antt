-- ===== src/Auth.antt =====
-- internal/auth: the middleware in front of the API, and the login by OpenID Connect. Claims and the
-- administrator's test are with the handlers.
mod Middleware
mod Provider
mod Login
pub mod Session
pub mod Patience
unfoldable pub use Middleware.*
pub use Provider.{Endpoint, Discovery, TokenVerifier, OidcHandler}
unfoldable pub use Provider.*
pub use Login.{Url, Cookie, Reply}
unfoldable pub use Login.*
