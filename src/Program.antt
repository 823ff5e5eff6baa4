-- ===== src/Program.antt =====
-- The program entries: cmd/api/main.go from its start to the listening server, and
-- cmd/operator/main.go with the registration of the controllers.
mod Api
mod Operator
pub mod Listens
pub use Api.{Startup, Stage, Client, JwtValidator}
unfoldable pub use Api.*
pub use Operator.{Kind, Controller, Setup, Run}
unfoldable pub use Operator.*
