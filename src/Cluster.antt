-- ===== src/Cluster.antt =====
-- The Kubernetes API server as dploy's controllers and API see it. The server, the caches in front of
-- it, the clock and the apimachinery helpers are not part of the repository: they are the fields of
-- the record `Kube`, which every function here takes. Each call's answer may depend on all the calls
-- before it, so any server, any cache lag and any interference by other clients is such a record.
-- A function of the program takes the log of the calls made so far, newest first, and returns its
-- result with the log behind it.
mod Calls
mod Monad
pub mod Requests
pub mod Traces
pub use Calls.{
  Error, not_found, conflict, already_exists, at_capacity, other, Result, ok, err, Key, key, Reader,
  cached, direct, Selector, all_in, by_claim_uid, by_owner, by_template, by_pooled_template,
  by_owners, Precondition, SourceKind, git_repository_kind, helm_repository_kind, Source,
  ChartProbe, HelmRelease, Call, Log, Kube,
}
pub use Monad.{M, ◌>>=◌, ◌>>◌, pure, fail, attempt, ask, done}
