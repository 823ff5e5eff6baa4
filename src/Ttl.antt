-- ===== src/Ttl.antt =====
-- The lifetimes of internal/controller/dployinstanceclaim_controller.go and
-- dploytemplate_controller.go: seconds are int64, times nanoseconds, and what Go computes in 64 bits
-- wraps.
mod Lifetime
mod Clock
pub mod Before
pub mod Granted
pub mod Anchor
unfoldable pub use Lifetime.{resolve_instance_ttl, max_lifetime, resolve_claim_ttl}
unfoldable pub use Clock.{
  seconds, time_sub, truncate_second, stamp_bound_at, bound_at_of, expiry_from, is_expired,
  time_before, time_eq,
}
