-- ===== src/ClaimController/Reconcile.antt =====
-- Reconcile of the claim controller, a stage for each part of its body; a stage that goes on calls
-- the next.
use dploy.Prelude.{◌*◌, Bool, ◌&&◌, ◌||◌, Option, none, some, if◌then◌else◌}
use dploy.Prelude.Int.{ℤ, pos, ltb_ℤ, eq_ℤ}
use dploy.Prelude.Text.{codes}
use dploy.V1alpha1.Common.{
  Time, is_zero, Message, template_not_found, template_disabled, quota_exceeded, pool_exhausted,
  instance_failed,
}
use dploy.V1alpha1.Template.{DployTemplate}
use dploy.V1alpha1.Instance.{DployInstance}
use dploy.V1alpha1.Claim.{ClaimPhase, DployInstanceClaim}
use dploy.Effective.{Effective, second}
use dploy.Ttl.{resolve_claim_ttl, time_sub, truncate_second, bound_at_of, expiry_from, is_expired}
use dploy.Cluster.{
  not_found, at_capacity, ok, err, Kube, Key, key, Call, M, ◌>>=◌, ◌>>◌, pure, fail, attempt,
}
use dploy.Cluster.Requests.{read_clock, get_claim, get_template, write_claim, resolve_config}
use dploy.ClaimController.Outcome.{
  Requeue, no_requeue, ensure_meta, bound_instance, patch_status, pending, reject, expire, observe,
}
use dploy.ClaimController.Quota.{over_quota, evict_if_over_quota}
use dploy.ClaimController.Capacity.{max_template_size, evict_if_over_max_size}
use dploy.ClaimController.Bind.{bind}
use dploy.ClaimController.Sync.{sync_instance, project, failed_for}

abbrev pub continue_requeue : Requeue
continue_requeue = pos 100000000

abbrev pub quota_settle_window : ℤ
quota_settle_window = pos (60 * second)

abbrev pub quota_settle_requeue : Requeue
quota_settle_requeue = pos (3 * second)

abbrev pub instance_failure_grace : ℤ
instance_failure_grace = pos (180 * second)

-- The claim without its anchor.
abbrev pub unbound : DployInstanceClaim → DployInstanceClaim
unbound claim = record claim { status = record (claim.status) { bound_at = none } }

abbrev pub with_bound_at : Time → DployInstanceClaim → DployInstanceClaim
with_bound_at t claim = record claim { status = record (claim.status) { bound_at = some t } }

-- How the settling of a fresh binding came out, with the limit that was exceeded.
pub data Verdict : Type 0 where
  kept : Verdict
  quota_lost capacity_lost : ℤ → Verdict

-- Inside the settling window the next reconcile comes soon.
unfoldable pub settle_requeue : Bool → Requeue → Requeue
settle_requeue settling after =
    if settling && (eq_ℤ after (pos 0) || ltb_ℤ quota_settle_requeue after)
    then quota_settle_requeue
    else after

module _ (kube : Kube) where
  -- The time until an expiry, from now.
  unfoldable pub requeue_at : Option Time → M Requeue
  requeue_at none = pure no_requeue
  requeue_at (some exp) = do now ← read_clock kube; pure (time_sub exp now)

  -- From syncInstance to the end.
  unfoldable pub finish : DployInstanceClaim → ℤ → DployInstance → Bool → M Requeue
  finish claim ttl inst settling = do
    synced ← sync_instance kube claim inst ttl claim.status.expires_at
    shown ← project kube claim synced
    patch_status kube shown
    after ← requeue_at shown.status.expires_at
    pure (settle_requeue settling after)

  -- The quota first, then the cap.
  unfoldable pub settle : DployInstanceClaim → DployTemplate → Effective → DployInstance → M Verdict
  settle claim tmpl eff inst = do
    (over, limit) ← evict_if_over_quota kube claim tmpl eff inst
    let capacity : M Verdict = do
      (over_cap, cap) ← evict_if_over_max_size kube tmpl inst
      pure (if over_cap then capacity_lost cap else kept)
    if over then pure (quota_lost limit) else capacity

  unfoldable pub conclude :
      Verdict → DployInstanceClaim → DployTemplate → ℤ → DployInstance → Bool → M Requeue
  conclude kept claim tmpl ttl inst settling = finish claim ttl inst settling
  conclude (quota_lost limit) claim tmpl ttl inst settling =
      reject kube (unbound claim) (codes "QuotaExceeded") (quota_exceeded claim.spec.owner limit)
  conclude (capacity_lost limit) claim tmpl ttl inst settling =
      pending kube (unbound claim) (codes "TemplateAtCapacity")
        (Message.at_capacity tmpl.meta.name limit)

  -- A binding whose lifetime runs: has its instance failed, and does it stand?
  unfoldable pub reconcile_standing :
      DployInstanceClaim → DployTemplate → Effective → ℤ → Time → DployInstance → M Requeue
  reconcile_standing claim tmpl eff ttl anchor inst = do
    failed ← failed_for kube inst
    let standing : M Requeue = do
      now ← read_clock kube
      let settling = ltb_ℤ (time_sub now anchor) quota_settle_window
      verdict ← if settling then settle claim tmpl eff inst else pure kept
      conclude verdict claim tmpl ttl inst settling
    if ltb_ℤ instance_failure_grace failed
        then reject kube (unbound claim) (codes "InstanceFailed") (instance_failed inst.meta.name)
        else standing

  -- The anchor in the status, or read back off the instance.
  unfoldable pub anchor_of : DployInstanceClaim → DployInstance → M Time
  anchor_of claim inst = elim claim.status.bound_at [
    | some t ↦ pure t
    | none ↦ do now ← read_clock kube; pure (bound_at_of inst now)
  ]

  -- From the anchoring of the TTL on: the claim has an instance.
  unfoldable pub reconcile_bound :
      DployInstanceClaim → DployTemplate → Effective → ℤ → DployInstance → M Requeue
  reconcile_bound claim tmpl eff ttl inst = do
    anchor ← anchor_of claim inst
    let anchored = record claim {
      status = record (claim.status) {
        bound_at = some anchor;
        expires_at = expiry_from anchor ttl;
      };
    }
    now ← read_clock kube
    if is_expired anchored now
        then expire kube anchored (some inst)
        else reconcile_standing anchored tmpl eff ttl anchor inst

  unfoldable pub bind_and_go_on : DployInstanceClaim → DployTemplate → Effective → ℤ → M Requeue
  bind_and_go_on claim tmpl eff ttl = do
    now ← read_clock kube
    let bound_at = truncate_second now
    b ← attempt (bind kube claim tmpl bound_at ttl (expiry_from bound_at ttl))
    elim b [
      | err at_capacity ↦
          pending kube claim (codes "TemplateAtCapacity")
            (Message.at_capacity tmpl.meta.name (max_template_size tmpl))
      | err e ↦ fail e
      | ok none ↦ pending kube claim (codes "PoolExhausted") (pool_exhausted tmpl.meta.name)
      | ok (some inst) ↦ reconcile_bound (with_bound_at bound_at claim) tmpl eff ttl inst
    ]

  -- The claim holds nothing: the quota is asked, then an instance is bound.
  unfoldable pub reconcile_unbound : DployInstanceClaim → DployTemplate → Effective → ℤ → M Requeue
  reconcile_unbound claim tmpl eff ttl = do
    (over, limit) ← over_quota kube claim tmpl eff
    if over
        then reject kube claim (codes "QuotaExceeded") (quota_exceeded claim.spec.owner limit)
        else bind_and_go_on claim tmpl eff ttl

  -- The template is there and enabled.
  unfoldable pub reconcile_enabled : DployInstanceClaim → DployTemplate → M Requeue
  reconcile_enabled claim tmpl = do
    eff ← resolve_config kube
    let (ttl, max_ttl) = resolve_claim_ttl claim tmpl eff
    let granted = record claim {
      status = record (claim.status) { ttl_seconds = ttl; max_ttl_seconds = max_ttl };
    }
    held ← bound_instance kube granted
    now ← read_clock kube
    if is_expired granted now then expire kube granted held else elim held [
      | none ↦ reconcile_unbound granted tmpl eff ttl
      | some inst ↦ reconcile_bound granted tmpl eff ttl inst
    ]

  unfoldable pub reconcile_in_flight : DployInstanceClaim → M Requeue
  reconcile_in_flight claim = do
    t ← attempt (get_template kube (key claim.meta.namespace claim.spec.template_ref))
    elim t [
      | err not_found ↦
          reject kube claim (codes "TemplateNotFound")
            (template_not_found claim.spec.template_ref claim.meta.namespace)
      | err e ↦ fail e
      | ok tmpl ↦
          if tmpl.spec.enabled
          then reconcile_enabled claim tmpl
          else reject kube claim (codes "TemplateDisabled") (template_disabled tmpl.meta.name)
    ]

  -- By the phase the claim was left in.
  unfoldable pub reconcile_phase : DployInstanceClaim → M Requeue
  reconcile_phase claim = elim claim.status.phase [
    | ClaimPhase.expired ↦ do observe kube claim; pure no_requeue
    | ClaimPhase.rejected ↦
        if eq_ℤ claim.status.observed_generation claim.meta.generation
        then pure no_requeue
        else reconcile_in_flight claim
    | _ ↦ reconcile_in_flight claim
  ]

  unfoldable pub reconcile_claim : DployInstanceClaim → M Requeue
  reconcile_claim claim =
      let (stamped, changed) = ensure_meta claim in
      let persist : M Requeue = do
        write_claim kube (Call.update_claim stamped)
        pure continue_requeue
      in if is_zero claim.meta.deletion_timestamp
        then (if changed then persist else reconcile_phase stamped)
        else pure no_requeue

  unfoldable pub reconcile : Key → M Requeue
  reconcile req = do
    r ← attempt (get_claim kube req)
    elim r [ err not_found ↦ pure no_requeue | err e ↦ fail e | ok claim ↦ reconcile_claim claim ]
