-- ===== src/ClaimController/Parked.antt =====
-- What a claim is parked with that loses a race for its template's capacity.
use dploy.Prelude.{◌≡◌, refl, true, none, some, List, [], ◌∷◌, arith}
use dploy.Prelude.Int.{ℤ, pos, ltb_ℤ, ◌<ℤ◌}
use dploy.Prelude.Text.{codes}
use dploy.V1alpha1.Common.{Time, Message, is_false}
use dploy.V1alpha1.Template.{DployTemplate}
use dploy.V1alpha1.Instance.{InstancePhase, DployInstance}
use dploy.V1alpha1.Claim.{ClaimPhase, DployInstanceClaim}
use dploy.Effective.{Effective}
use dploy.Ttl.{expiry_from, is_expired, time_sub}
use dploy.Cluster.{Kube, Call, Log, ok, direct, by_template}
use dploy.Cluster.Requests.{delete_instance}
use dploy.ClaimController.Outcome.{condition, set_condition, patch_status, pending}
use dploy.ClaimController.Quota.{
  owner_limit, live_oldest_first, beyond_limit, evict, evict_if_over_quota,
}
use dploy.ClaimController.Capacity.{max_template_size, template_instances, evict_if_over_max_size}
use dploy.ClaimController.Sync.{failed_for}
use dploy.ClaimController.Reconcile.{
  quota_settle_window, anchor_of, settle, conclude, reconcile_standing, reconcile_bound,
}

-- The last calls delete the instance and park the claim: Pending, without an instance or an anchor, and
-- with that expiry.
abbrev pub Parks : DployInstance → Time → Log → Type 0
Parks inst exp after =
    (c : DployInstanceClaim) × (before : Log) × (after
      ≡ Call.patch_claim_status c ∷ Call.delete_instance inst none ∷ before)
    × (c.status.phase ≡ ClaimPhase.pending)
    × (c.status.instance_ref ≡ [])
    × (c.status.bound_at ≡ none)
    × (c.status.expires_at ≡ some exp)

-- The claim that pending writes for it.
abbrev parked : Kube → DployInstanceClaim → Time → DployTemplate → ℤ → Log → DployInstanceClaim
parked kube claim exp tmpl limit l = record claim {
  status = record (claim.status) {
    phase = ClaimPhase.pending;
    instance_ref = [];
    bound_at = none;
    expires_at = some exp;
    conditions = kube.set_status_condition l claim.status.conditions (
        condition kube claim (codes "Bound") is_false (codes "TemplateAtCapacity")
          (Message.at_capacity tmpl.meta.name limit));
    observed_generation = claim.meta.generation;
  };
}

module _ (kube : Kube) (now : Time) (steady : (l : Log) → kube.now l ≡ now) where
  -- Where the clock stands within the settling window of a binding and before its end, the instance is
  -- Claimed, the owner has no quota and the template a cap, and the instance is beyond the cap in the
  -- listing and the server takes its delete: the reconcile deletes the instance, and writes the claim
  -- as Pending, without an instance or an anchor, but with the expiry of the binding that it lost.
  pub reconcile_bound-Parks :
      (claim : DployInstanceClaim) (tmpl : DployTemplate) (eff : Effective) (inst : DployInstance)
      (items : List DployInstance) (anchor exp : Time) (ttl limit : ℤ) (log : Log)
      → claim.status.bound_at ≡ some anchor
      → expiry_from anchor ttl ≡ some exp
      → now <ℤ exp
      → ltb_ℤ (time_sub now anchor) quota_settle_window ≡ true
      → inst.status.phase ≡ InstancePhase.claimed
      → owner_limit tmpl eff ≡ pos 0
      → max_template_size tmpl ≡ limit
      → pos 0 <ℤ limit
      → ((l : Log)
          → kube.list_instances l direct tmpl.meta.namespace (by_template tmpl.meta.name)
            ≡ ok items)
      → beyond_limit inst.meta.name limit (live_oldest_first items) ≡ true
      → ((l : Log) → kube.write l (Call.delete_instance inst none) ≡ ok tt)
      → Parks inst exp (reconcile_bound kube claim tmpl eff ttl inst log).1
  unfolding reconcile_bound reconcile_standing anchor_of settle conclude evict_if_over_quota
      evict_if_over_max_size template_instances evict failed_for delete_instance pending
      set_condition patch_status is_expired
  reconcile_bound-Parks claim tmpl eff inst items anchor exp ttl limit log b x run fresh phase quota
        size positive listed over gone =
      let counted : Log =
        Call.list_instances direct tmpl.meta.namespace (by_template tmpl.meta.name)
        ∷ Call.clock
        ∷ Call.clock
        ∷ log in
      (
        parked kube claim exp tmpl limit (Call.delete_instance inst none ∷ counted),
        counted,
        ground (
          arith,
          b,
          x,
          run,
          fresh,
          phase,
          quota,
          size,
          positive,
          over,
          steady log,
          steady (Call.clock ∷ log),
          listed (Call.clock ∷ Call.clock ∷ log),
          gone counted,
        ),
        refl,
        refl,
        refl,
        refl,
      )
