-- ===== src/KubeClient.antt =====
-- The API server's own use of Kubernetes, internal/kube: client.go, whose set-up is with the program entries, and owner.go.
-- The client is built without a cache, so its reads go to the API server.
mod Owners
mod Claims
pub mod Reachable
pub mod Extension
pub mod Idempotent
pub use Owners.{ClaimValue}
unfoldable pub use Owners.{
  has_text, string_elements, claim_values, first_owner, resolve_owner, identities,
}
pub use Claims.{Refusal, ExtendResult}
unfoldable pub use Claims.{
  wanted_ttl, with_ttl, deadline, get_owner_claim, list_templates, ready, list_all_instances,
  list_visible_templates, list_owned_claims, new_claim, create_claim, replace_expired, ensure_claim,
  extend_claim, delete_claim, extend_count,
}
