-- ===== src/Ownership.antt =====
-- Who holds an instance, when the controllers of internal/controller work at the same time on one
-- cluster: the claim controller's workers bind (acquirePooled) and synchronise (syncInstance), the
-- instance controller labels (ensureMeta) and patches, the template controller creates and purges.
-- A history gives what the API server stores under a name at each moment; each worker has its own
-- `Kube`, whose answers come from that one history. The workers' calls thus interleave in any order.
pub mod History
pub mod Labels
pub mod Vacated
pub mod Permanent
pub mod Exclusive
pub mod Lookup
pub mod Kept
pub mod Given
pub mod Written
