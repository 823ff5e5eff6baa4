-- ===== src/InstanceController/Materialise.antt =====
-- From the workload namespace to the end of Reconcile: the objects of an instance, and what Flux
-- reports of its release.
use dploy.Prelude.{Bool, true, false, ◌&&◌, ◌||◌, List, [], if◌then◌else◌}
use dploy.Prelude.Int.{pos, ltb_ℤ, eq_ℤ}
use dploy.Prelude.Text.{Text, codes}
use dploy.V1alpha1.Common.{Condition, is_false, error_text, Message}
use dploy.V1alpha1.Template.{DployTemplate}
use dploy.V1alpha1.Instance.{InstancePhase, DployInstance}
use dploy.Effective.{Effective}
use dploy.Flux.{
  Readiness, in_progress, engine_resource_name, ensure_namespace, ensure_source,
  ensure_helm_release, template_source_ready, translate_helm_release,
}
use dploy.Cluster.{
  Error, not_found, conflict, already_exists, ok, err, Kube, SourceKind, M, ◌>>=◌, ◌>>◌, pure, fail,
  attempt,
}
use dploy.ClaimController.{Requeue, no_requeue, continue_requeue}
use dploy.InstanceController.Meta.{
  provisioning_requeue, phase_for, set_ready, patch_status, fail_with,
}
use dploy.InstanceController.Expiry.{apply_ttl}
use dploy.InstanceController.Teardown.{get_helm_release}

unfoldable pub is_create_race : Error → Bool
is_create_race already_exists = true
is_create_race conflict = true
is_create_race _ = false

abbrev pub is_in_progress : Readiness → Bool
is_in_progress in_progress = true
is_in_progress _ = false

-- The requeue of a release that is still at work comes soon.
unfoldable pub progress_requeue : Readiness → Requeue → Requeue
progress_requeue r after =
    if is_in_progress r && (eq_ℤ after (pos 0) || ltb_ℤ provisioning_requeue after)
    then provisioning_requeue
    else after

module _ (kube : Kube) where
  -- The method's answer to an error of the namespace or the source.
  unfoldable pub race_or_fail : DployInstance → Text → Error → M Requeue
  race_or_fail inst reason e =
      if is_create_race e then pure continue_requeue else fail_with kube inst reason error_text

  -- What Flux reports of the release, the expiry, and the status.
  unfoldable pub project_release : DployInstance → List Condition → M Requeue
  project_release inst conditions = do
    let state = translate_helm_release kube conditions
    let healthy = record inst { status = record (inst.status) { health = state.health } }
    told ← set_ready kube healthy state.status state.reason state.message
    let phased = record told { status = record (told.status) { phase = phase_for told state } }
    (applied, (after, expired)) ← apply_ttl kube phased
    let standing : M Requeue = do
      patch_status kube applied
      pure (progress_requeue state.readiness after)
    if expired then pure no_requeue else standing

  -- The chart is proven: the release is applied and read.
  unfoldable pub apply_release :
      DployInstance → DployTemplate → Effective → SourceKind → Text → Text → M Requeue
  apply_release inst tmpl eff source_kind source_name values_json = do
    a ← attempt (
        ensure_helm_release kube inst tmpl eff source_kind source_name inst.status.namespace
          values_json)
    elim a [
      | err e ↦ fail_with kube inst (codes "HelmReleaseError") error_text
      | ok u ↦ do
        let applied = record inst {
          status = record (inst.status) { engine_ref = engine_resource_name inst };
        }
        r ← attempt (get_helm_release kube applied)
        elim r [
          | err not_found ↦ project_release applied []
          | err e ↦ fail e
          | ok (deleting, conditions) ↦ project_release applied conditions
        ]
    ]

  -- The template has no verdict yet that its chart resolves.
  unfoldable pub hold_back : DployInstance → Text → Message → M Requeue
  hold_back inst reason message = do
    let waiting = record inst {
      status = record (inst.status) {
        phase = InstancePhase.provisioning;
        health = codes "Progressing";
      };
    }
    c ← set_ready kube waiting is_false reason message
    patch_status kube c
    pure provisioning_requeue

  unfoldable pub materialise : DployInstance → DployTemplate → Effective → Text → M Requeue
  materialise inst tmpl eff values_json = do
    n ← attempt (ensure_namespace kube inst.status.namespace inst)
    elim n [
      | err e ↦ race_or_fail inst (codes "NamespaceError") e
      | ok u ↦ do
        s ← attempt (ensure_source kube tmpl eff)
        elim s [
          | err e ↦ race_or_fail inst (codes "SourceError") e
          | ok (source_kind, source_name) ↦
              let (ready, (reason, message)) = template_source_ready kube tmpl in
              if ready
              then apply_release inst tmpl eff source_kind source_name values_json
              else hold_back inst reason message
        ]
    ]
