-- ===== src/ClaimController.antt =====
-- internal/controller/dployinstanceclaim_controller.go: turns a claim into a running environment. A
-- controller's object is a value that is passed on; what is written to the cluster is a call.
mod Outcome
mod Quota
mod Capacity
mod Bind
mod Sync
mod Reconcile
mod Watch
pub mod Creates
pub mod OneInstance
pub mod Seniority
pub mod Survivors
pub mod Terminal
pub mod Release
pub mod Parked
pub mod Candidates
unfoldable pub use Outcome.*
unfoldable pub use Quota.*
unfoldable pub use Capacity.*
unfoldable pub use Bind.*
unfoldable pub use Sync.*
unfoldable pub use Reconcile.*
unfoldable pub use Watch.*
