-- ===== src/ClaimController/Terminal.antt =====
-- What becomes of a claim that has ended: a terminal phase, or an expiry that has passed.
use dploy.Prelude.{◌≡◌, ◌⊎◌, Option, none, some, arith}
use dploy.Prelude.Int.{◌≤ℤ◌}
use dploy.Prelude.Text.{Text}
use dploy.V1alpha1.Common.{Time, Message}
use dploy.V1alpha1.Instance.{DployInstance}
use dploy.V1alpha1.Claim.{ClaimPhase, DployInstanceClaim}
use dploy.Ttl.{is_expired}
use dploy.Cluster.{Kube, Key, Log, ok}
use dploy.Cluster.Requests.{resolve_config, delete_instance}
use dploy.Cluster.Traces.{count_calls, is_bind, is_instance_write}
use dploy.ClaimController.Outcome.{
  ensure_meta, lookup_bound, bound_instance, set_condition, patch_status, reject, release_held,
  expire, observe,
}
use dploy.ClaimController.Reconcile.{
  reconcile, reconcile_claim, reconcile_phase, reconcile_in_flight, reconcile_enabled,
}

-- The phases that a reconcile does not leave: Expired, and Rejected while the spec that was
-- rejected stands.
abbrev pub IsTerminal : DployInstanceClaim → Type 0
IsTerminal c =
    (c.status.phase ≡ ClaimPhase.expired)
    ⊎ ((c.status.phase ≡ ClaimPhase.rejected) × (c.status.observed_generation ≡ c.meta.generation))

module _ (kube : Kube) where
  -- A reconcile of a claim in a terminal phase creates, changes and deletes no instance.
  pub reconcile_terminal :
      (req : Key) (claim : DployInstanceClaim) (log : Log)
      → kube.get_claim log req ≡ ok claim
      → IsTerminal claim
      → count_calls is_instance_write (reconcile kube req log).1 ≡ count_calls is_instance_write log
  unfolding reconcile reconcile_claim reconcile_phase observe ensure_meta patch_status count_calls
  reconcile_terminal req claim log g t = ground arith

  expire_binds :
      (c : DployInstanceClaim) (i : Option DployInstance) (log : Log)
      → count_calls is_bind (expire kube c i log).1 ≡ count_calls is_bind log
  unfolding expire set_condition patch_status delete_instance count_calls
  expire_binds c none log = ground arith
  expire_binds c (some i) log = ground arith

  reject_binds :
      (c : DployInstanceClaim) (t : Text) (m : Message) (log : Log)
      → count_calls is_bind (reject kube c t m log).1 ≡ count_calls is_bind log
  unfolding reject release_held set_condition patch_status bound_instance lookup_bound
      delete_instance count_calls
  reject_binds c t m log = ground arith

  held_binds :
      (c : DployInstanceClaim) (log : Log)
      → count_calls is_bind (bound_instance kube c log).1 ≡ count_calls is_bind log
  unfolding bound_instance lookup_bound count_calls
  held_binds c log = ground arith

  config_binds :
      (log : Log) → count_calls is_bind (resolve_config kube log).1 ≡ count_calls is_bind log
  unfolding resolve_config count_calls
  config_binds log = ground arith

  -- A claim whose expiry has passed by every reading of the clock is handed no instance, neither a
  -- new one nor one from the pool, whatever else the API server answers.
  pub reconcile_past_expiry :
      (claim : DployInstanceClaim) (exp : Time) (log : Log)
      → claim.status.expires_at ≡ some exp
      → ((l : Log) → exp ≤ℤ kube.now l)
      → count_calls is_bind (reconcile_in_flight kube claim log).1 ≡ count_calls is_bind log
  unfolding reconcile_in_flight reconcile_enabled is_expired count_calls
  reconcile_past_expiry claim exp log e late =
      grind (arith, config_binds, held_binds, expire_binds, reject_binds)
