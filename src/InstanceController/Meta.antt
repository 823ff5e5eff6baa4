-- ===== src/InstanceController/Meta.antt =====
-- ensureMeta, patchStatus, fail and phaseFor of the instance controller.
use dploy.Prelude.{
  ◌*◌, Bool, true, false, ◌||◌, not, Option, none, List, [], ◌∷◌, ◌++◌, is_empty, if◌then◌else◌,
  select,
}
use dploy.Prelude.Int.{pos}
use dploy.Prelude.Text.{Text, codes, text_eq}
use dploy.V1alpha1.Common.{ConditionStatus, is_false, Message}
use dploy.V1alpha1.Instance.{InstancePhase, DployInstance}
use dploy.Effective.{second}
use dploy.Naming.{sanitize}
use dploy.Flux.{in_progress, ready, failed, HelmReleaseState}
use dploy.Cluster.{not_found, ok, err, Kube, Call, M, ◌>>=◌, ◌>>◌, pure, done, fail, attempt}
use dploy.Cluster.Requests.{write_instance}
use dploy.ClaimController.{want_label, want_owner_label, Requeue}

abbrev pub provisioning_requeue : Requeue
provisioning_requeue = pos (15 * second)

abbrev pub failure_requeue : Requeue
failure_requeue = pos (30 * second)

abbrev pub deletion_requeue : Requeue
deletion_requeue = pos (5 * second)

abbrev pub instance_finalizer : Text
instance_finalizer = codes "dploy.dev/instance-cleanup"

-- controllerutil.ContainsFinalizer, AddFinalizer of one that is missing, and RemoveFinalizer.
unfoldable pub contains_finalizer : Text → List Text → Bool
contains_finalizer f [] = false
contains_finalizer f (x ∷ xs) = text_eq x f || contains_finalizer f xs

unfoldable pub want_finalizer : List Text → List Text × Bool
want_finalizer fs =
    if contains_finalizer instance_finalizer fs
    then (fs, false)
    else (fs ++ instance_finalizer ∷ [], true)

unfoldable pub remove_finalizer : List Text → List Text
remove_finalizer fs = select (λ f. not (text_eq f instance_finalizer)) fs

unfoldable pub want_pooled_label : Option Text → Bool → Option Text × Bool
want_pooled_label l pooled = if pooled then want_label l (codes "true") else (l, false)

-- ensureMeta of the instance controller.
unfoldable pub ensure_meta : DployInstance → DployInstance × Bool
ensure_meta inst =
    let (fs, f_changed) = want_finalizer inst.meta.finalizers in
    let (m, m_changed) = want_label inst.meta.labels.managed (codes "true") in
    let (t, t_changed) = want_label inst.meta.labels.template inst.spec.template_ref in
    let (p, p_changed) = want_pooled_label inst.meta.labels.pooled inst.spec.pooled in
    let (o, o_changed) = want_owner_label inst.meta.labels.owner (sanitize inst.spec.owner) in
    (
      record inst {
        meta = record (inst.meta) {
          finalizers = fs;
          labels = record (inst.meta.labels) { managed = m; template = t; pooled = p; owner = o };
        };
      },
      f_changed || (m_changed || (t_changed || (p_changed || o_changed))),
    )

unfoldable pub phase_for : DployInstance → HelmReleaseState → InstancePhase
phase_for inst state = elim state.readiness [
  | failed ↦ InstancePhase.failed
  | ready ↦
      if inst.spec.pooled
      then (if is_empty inst.spec.owner then InstancePhase.available else InstancePhase.claimed)
      else InstancePhase.ready
  | in_progress ↦ InstancePhase.provisioning
]

module _ (kube : Kube) where
  -- The instance with a Ready condition, whose transition time SetStatusCondition stamps.
  unfoldable pub set_ready : DployInstance → ConditionStatus → Text → Message → M DployInstance
  set_ready inst status reason message log = (
    ok (record inst {
      status = record (inst.status) {
        conditions = kube.set_status_condition log inst.status.conditions (record {
          kind = codes "Ready";
          status = status;
          reason = reason;
          message = message;
          last_transition_time = none;
          observed_generation = inst.meta.generation;
        });
      };
    }),
    log,
  )

  -- An instance that is gone needs no status.
  unfoldable pub patch_status : DployInstance → M (Unit {0})
  patch_status inst = do
    let seen = record inst {
      status = record (inst.status) { observed_generation = inst.meta.generation };
    }
    r ← attempt (write_instance kube (Call.patch_instance_status seen))
    elim r [ err not_found ↦ done | err e ↦ fail e | ok i ↦ done ]

  -- The method fail.
  unfoldable pub fail_with : DployInstance → Text → Message → M Requeue
  fail_with inst reason message = do
    let broken = record inst {
      status = record (inst.status) { phase = InstancePhase.failed; health = codes "Degraded" };
    }
    c ← set_ready broken is_false reason message
    patch_status c
    pure failure_requeue
