-- ===== src/Naming.antt =====
-- internal/controller/naming.go, and the owner keys of internal/kube/owner.go, internal/auth/jwt.go
-- and internal/kube/client.go. Text that is cut is ASCII there, so its length is its bytes.
mod Chars
mod Keys
pub mod Trim
pub mod OwnerKey
pub mod Workload
pub mod ClaimName
unfoldable pub use Chars.{
  is_key_char, to_lower, to_dash, clean, trim_left, trim_right, trim, truncate,
}
unfoldable pub use Keys.{
  sanitize, max_segment, workload_namespace, default_host, first_non_empty, max_owner_len,
  sanitize_owner, sanitize_username, max_claim_name_len, claim_name,
}
