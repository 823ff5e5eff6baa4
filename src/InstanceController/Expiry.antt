-- ===== src/InstanceController/Expiry.antt =====
-- applyTTL.
use dploy.Prelude.{Bool, true, false, ◌&&◌, Option, none, some, if◌then◌else◌}
use dploy.Prelude.Int.{pos, minus_one, ◌+ℤ◌, ltb_ℤ, eq_ℤ}
use dploy.Prelude.Text.{codes}
use dploy.V1alpha1.Common.{Time}
use dploy.V1alpha1.Instance.{InstancePhase, DployInstance}
use dploy.Ttl.{seconds, time_sub}
use dploy.Cluster.{Kube, M, ◌>>=◌, ◌>>◌, pure}
use dploy.Cluster.Requests.{read_clock, delete_instance}
use dploy.ClaimController.{Requeue, no_requeue}
use dploy.InstanceController.Meta.{patch_status}

abbrev pub is_active_phase : InstancePhase → Bool
is_active_phase InstancePhase.ready = true
is_active_phase InstancePhase.claimed = true
is_active_phase _ = false

abbrev pub expiring_at : Option Time → DployInstance → DployInstance
expiring_at t inst = record inst { status = record (inst.status) { expires_at = t } }

-- The instance as it then stands, the time to its expiry, and whether it was deleted.
abbrev pub Applied : Type 0
Applied = DployInstance × (Requeue × Bool)

module _ (kube : Kube) where
  -- From the resolved expiry on.
  unfoldable pub enforce : DployInstance → M Applied
  enforce inst = elim inst.status.expires_at [
    | none ↦ pure (inst, (no_requeue, false))
    | some exp ↦ do
      now ← read_clock kube
      let wait : M Applied = do later ← read_clock kube; pure (inst, (time_sub exp later, false))
      let dying = record inst {
        status = record (inst.status) {
          phase = InstancePhase.expiring;
          health = codes "Progressing";
        };
      }
      let end : M Applied = do
        patch_status kube dying
        delete_instance kube dying
        pure (dying, (no_requeue, true))
      if ltb_ℤ now exp then wait else end
  ]

  -- The clock starts when the instance is first active.
  unfoldable pub anchor : DployInstance → M DployInstance
  anchor inst = elim inst.status.expires_at [
    | some exp ↦ pure inst
    | none ↦ do
      now ← read_clock kube
      pure (expiring_at (some (now +ℤ seconds inst.spec.ttl_seconds)) inst)
  ]

  unfoldable pub apply_ttl : DployInstance → M Applied
  apply_ttl inst =
      let anchored : M Applied = do i ← anchor inst; enforce i
      in if eq_ℤ inst.spec.ttl_seconds minus_one
        then pure (expiring_at none inst, (no_requeue, false))
        else elim inst.spec.expires_at [
          | some exp ↦ enforce (expiring_at (some exp) inst)
          | none ↦
              if ltb_ℤ (pos 0) inst.spec.ttl_seconds && is_active_phase inst.status.phase
              then anchored
              else pure (inst, (no_requeue, false))
        ]
