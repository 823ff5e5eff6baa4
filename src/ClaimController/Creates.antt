-- ===== src/ClaimController/Creates.antt =====
-- Which stages of a reconcile create no instance, and update none but as the claim's binding.
use dploy.Prelude.{ℕ, zero, suc, ◌≡◌, Bool, false, Option, none, some, List, arith}
use dploy.Prelude.Int.{ℤ}
use dploy.Prelude.Text.{Text}
use dploy.V1alpha1.Common.{Time, Message, OwnerReference}
use dploy.V1alpha1.Template.{DployTemplate}
use dploy.V1alpha1.Instance.{DployInstance}
use dploy.V1alpha1.Claim.{DployInstanceClaim}
use dploy.Effective.{Effective}
use dploy.Cluster.{Kube, Log}
use dploy.Cluster.Requests
use dploy.Cluster.Traces.{count_writes}
use dploy.ClaimController.Outcome
use dploy.ClaimController.Quota
use dploy.ClaimController.Capacity
use dploy.ClaimController.Sync
use dploy.ClaimController.Bind.{bound_copy}
use dploy.ClaimController.Reconcile

-- What a reconcile of a claim with that uid writes does not pass the second test.
pub record Permits (made written : DployInstance → Bool) (u : Text) : Type 0 where
  pub syncs :
      (c : DployInstanceClaim)
      → c.meta.uid ≡ u
      → (ttl : ℤ) (x : Option Time) (refs : List OwnerReference) (i : DployInstance)
      → written (Sync.desired_instance c ttl x refs i) ≡ false
  pub binds :
      (c : DployInstanceClaim)
      → c.meta.uid ≡ u
      → (b : Time) (i : DployInstance) → written (bound_copy c b i) ≡ false

module _ (kube : Kube) (made written : DployInstance → Bool) where
  -- How many instances have been created or updated that pass the tests.
  abbrev pub creates : Log → ℕ
  creates = count_writes made written

  pub delete_creates :
      (i : DployInstance) (log : Log)
      → creates (Requests.delete_instance kube i log).1 ≡ creates log
  unfolding Requests.delete_instance count_writes
  delete_creates i log = ground arith

  pub config_creates : (log : Log) → creates (Requests.resolve_config kube log).1 ≡ creates log
  unfolding Requests.resolve_config count_writes
  config_creates log = ground arith

  pub patch_creates :
      (c : DployInstanceClaim) (log : Log)
      → creates (Outcome.patch_status kube c log).1 ≡ creates log
  unfolding Outcome.patch_status count_writes
  patch_creates c log = ground arith

  pub bound_creates :
      (c : DployInstanceClaim) (log : Log)
      → creates (Outcome.bound_instance kube c log).1 ≡ creates log
  unfolding Outcome.bound_instance Outcome.lookup_bound count_writes
  bound_creates c log = ground arith

  pub pending-creates :
      (c : DployInstanceClaim) (t : Text) (m : Message) (log : Log)
      → creates (Outcome.pending kube c t m log).1 ≡ creates log
  unfolding Outcome.pending Outcome.set_condition Outcome.patch_status count_writes
  pending-creates c t m log = ground arith

  pub reject-creates :
      (c : DployInstanceClaim) (t : Text) (m : Message) (log : Log)
      → creates (Outcome.reject kube c t m log).1 ≡ creates log
  unfolding Outcome.reject Outcome.release_held Outcome.set_condition Outcome.patch_status
      Outcome.bound_instance Outcome.lookup_bound Requests.delete_instance count_writes
  reject-creates c t m log = ground arith

  pub expire-creates :
      (c : DployInstanceClaim) (i : Option DployInstance) (log : Log)
      → creates (Outcome.expire kube c i log).1 ≡ creates log
  unfolding Outcome.expire Outcome.set_condition Outcome.patch_status Requests.delete_instance
      count_writes
  expire-creates c none log = ground arith
  expire-creates c (some i) log = ground arith

  pub over_quota-creates :
      (c : DployInstanceClaim) (t : DployTemplate) (e : Effective) (log : Log)
      → creates (Quota.over_quota kube c t e log).1 ≡ creates log
  unfolding Quota.over_quota Quota.owned_instances count_writes
  over_quota-creates c t e log = ground arith

  pub evict_quota_creates :
      (c : DployInstanceClaim) (t : DployTemplate) (e : Effective) (i : DployInstance) (log : Log)
      → creates (Quota.evict_if_over_quota kube c t e i log).1 ≡ creates log
  unfolding Quota.evict_if_over_quota Quota.owned_instances Requests.delete_instance count_writes
  evict_quota_creates c t e i log = ground arith

  pub evict_cap_creates :
      (t : DployTemplate) (i : DployInstance) (log : Log)
      → creates (Capacity.evict_if_over_max_size kube t i log).1 ≡ creates log
  unfolding Capacity.evict_if_over_max_size Capacity.template_instances Quota.evict
      Requests.delete_instance count_writes
  evict_cap_creates t i log = ground arith

  pub settle-creates :
      (c : DployInstanceClaim) (t : DployTemplate) (e : Effective) (i : DployInstance) (log : Log)
      → creates (Reconcile.settle kube c t e i log).1 ≡ creates log
  unfolding Reconcile.settle
  settle-creates c t e i log = ground (
    arith,
    evict_quota_creates c t e i log,
    evict_cap_creates t i (Quota.evict_if_over_quota kube c t e i log).1,
  )

  pub failed_creates :
      (i : DployInstance) (log : Log) → creates (Sync.failed_for kube i log).1 ≡ creates log
  unfolding Sync.failed_for Sync.failed_since count_writes
  failed_creates i log = ground arith

  module _ (u : Text) (permits : Permits made written u) where
    sync_once-creates :
        (c : DployInstanceClaim) (i : DployInstance) (ttl : ℤ) (x : Option Time) (log : Log)
        → c.meta.uid ≡ u
        → creates (Sync.sync_once kube c i ttl x log).1 ≡ creates log
    unfolding Sync.sync_once Requests.set_controller_reference count_writes
    sync_once-creates c i ttl x log h = grind (arith, permits.syncs c h ttl x)

    retry_creates :
        (n : ℕ) (c : DployInstanceClaim) (i : DployInstance) (ttl : ℤ) (x : Option Time) (log : Log)
        → c.meta.uid ≡ u
        → creates (Sync.retry_on_conflict n (Sync.sync_once kube c i ttl x) log).1 ≡ creates log
    unfolding Sync.retry_on_conflict
    retry_creates zero c i ttl x log h = sync_once-creates c i ttl x log h
    retry_creates (suc n) c i ttl x log h = ground (
      arith,
      sync_once-creates c i ttl x log h,
      retry_creates n c i ttl x (Sync.sync_once kube c i ttl x log).1 h,
    )

    finish-creates :
        (c : DployInstanceClaim) (ttl : ℤ) (i : DployInstance) (s : Bool) (log : Log)
        → c.meta.uid ≡ u
        → creates (Reconcile.finish kube c ttl i s log).1 ≡ creates log
    unfolding Reconcile.finish Sync.sync_instance Sync.project Reconcile.requeue_at
        Outcome.set_condition Outcome.patch_status count_writes
    finish-creates c ttl i s log h =
        ground (arith, retry_creates kube.retries c i ttl c.status.expires_at log h)

    conclude-creates :
        (v : Reconcile.Verdict) (c : DployInstanceClaim) (t : DployTemplate) (ttl : ℤ)
        (i : DployInstance) (s : Bool) (log : Log)
        → c.meta.uid ≡ u
        → creates (Reconcile.conclude kube v c t ttl i s log).1 ≡ creates log
    unfolding Reconcile.conclude
    conclude-creates Reconcile.kept c t ttl i s log h = finish-creates c ttl i s log h
    conclude-creates (Reconcile.quota_lost n) c t ttl i s log h = reject-creates _ _ _ log
    conclude-creates (Reconcile.capacity_lost n) c t ttl i s log h = pending-creates _ _ _ log

    standing_creates :
        (c : DployInstanceClaim) (t : DployTemplate) (e : Effective) (ttl : ℤ) (a : Time)
        (i : DployInstance) (log : Log)
        → c.meta.uid ≡ u
        → creates (Reconcile.reconcile_standing kube c t e ttl a i log).1 ≡ creates log
    unfolding Reconcile.reconcile_standing count_writes
    standing_creates c t e ttl a i log h =
        grind (arith, failed_creates, reject-creates, settle-creates, conclude-creates)

    pub bound_stage_creates :
        (c : DployInstanceClaim) (t : DployTemplate) (e : Effective) (ttl : ℤ) (i : DployInstance)
        (log : Log)
        → c.meta.uid ≡ u
        → creates (Reconcile.reconcile_bound kube c t e ttl i log).1 ≡ creates log
    unfolding Reconcile.reconcile_bound Reconcile.anchor_of count_writes
    bound_stage_creates c t e ttl i log h = grind (arith, expire-creates, standing_creates)
