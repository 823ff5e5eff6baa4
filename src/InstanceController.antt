-- ===== src/InstanceController.antt =====
-- internal/controller/dployinstance_controller.go: turns an instance into a namespace and a
-- HelmRelease, shows what Flux reports of it, ends it when its lifetime is over and tears it down.
mod Meta
mod Present
mod Expiry
mod Teardown
mod Materialise
mod Reconcile
pub mod Settles
pub mod Pinned
pub mod Proven
pub mod Anonymous
pub mod Due
pub mod Ends
pub mod Rounds
unfoldable pub use Meta.*
pub use Present.{Presentation}
unfoldable pub use Present.{
  render, build_data, resolve_url, resolve_connection, render_values, present,
}
unfoldable pub use Expiry.*
unfoldable pub use Teardown.*
unfoldable pub use Materialise.*
unfoldable pub use Reconcile.*
