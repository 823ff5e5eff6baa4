-- ===== src/InstanceController/Reconcile.antt =====
-- Reconcile of the instance controller, up to the objects of the instance.
use dploy.Prelude.{not, select, take, ◌==◌, is_empty, if◌then◌else◌}
use dploy.Prelude.Text.{Text, codes}
use dploy.V1alpha1.Common.{is_zero, EngineType, template_not_found, error_text}
use dploy.V1alpha1.Template.{DployTemplate}
use dploy.V1alpha1.Instance.{InstancePhase, DployInstance}
use dploy.Effective.{Effective}
use dploy.Cluster.{
  not_found, ok, err, Kube, Key, key, cached, Call, M, ◌>>=◌, ◌>>◌, pure, fail, attempt, ask,
}
use dploy.Cluster.Requests.{get_instance, get_template, write_instance, resolve_config}
use dploy.ClaimController.{Requeue, no_requeue, continue_requeue}
use dploy.InstanceController.Meta.{ensure_meta, patch_status, fail_with}
use dploy.InstanceController.Present.{presented, unpresentable, present}
use dploy.InstanceController.Teardown.{reconcile_delete}
use dploy.InstanceController.Materialise.{materialise}

-- shortUUID, of the text of a random UUID.
unfoldable pub short_uuid : Text → Text
short_uuid u = take 8 (select (λ c. not (c == b'-')) u)

module _ (kube : Kube) where
  -- The first reconcile gives the instance its identifier.
  unfoldable pub assign_uuid : DployInstance → M Requeue
  assign_uuid inst = do
    u ← ask Call.new_uuid (λ log. ok (kube.new_uuid log))
    patch_status kube (record inst {
      status = record (inst.status) {
        uuid = short_uuid u;
        phase = InstancePhase.pending;
        engine = EngineType.flux;
      };
    })
    pure continue_requeue

  unfoldable pub reconcile_named : DployInstance → DployTemplate → Effective → M Requeue
  reconcile_named inst tmpl eff = elim (present kube inst tmpl eff) [
    | unpresentable shown reason ↦ fail_with kube shown reason error_text
    | presented shown values_json ↦ materialise kube shown tmpl eff values_json
  ]

  unfoldable pub reconcile_stamped : DployInstance → M Requeue
  reconcile_stamped inst = do
    t ← attempt (get_template kube (key inst.meta.namespace inst.spec.template_ref))
    elim t [
      | err not_found ↦
          fail_with kube inst (codes "TemplateNotFound")
            (template_not_found inst.spec.template_ref inst.meta.namespace)
      | err e ↦ fail e
      | ok tmpl ↦ do
        eff ← resolve_config kube
        if is_empty inst.status.uuid then assign_uuid inst else reconcile_named inst tmpl eff
    ]

  -- A write that finds the instance gone is no failure.
  unfoldable pub persist_meta : DployInstance → M Requeue
  persist_meta inst = do
    r ← attempt (write_instance kube (Call.update_instance inst))
    elim r [ err not_found ↦ pure no_requeue | err e ↦ fail e | ok i ↦ pure continue_requeue ]

  unfoldable pub reconcile_instance : DployInstance → M Requeue
  reconcile_instance inst =
      let (stamped, changed) = ensure_meta inst in
      if is_zero inst.meta.deletion_timestamp
      then (if changed then persist_meta stamped else reconcile_stamped stamped)
      else reconcile_delete kube inst

  unfoldable pub reconcile : Key → M Requeue
  reconcile req = do
    r ← attempt (get_instance kube cached req)
    elim r [ err not_found ↦ pure no_requeue | err e ↦ fail e | ok inst ↦ reconcile_instance inst ]
