-- ===== src/InstanceController/Teardown.antt =====
-- reconcileDelete: the HelmRelease first, then the namespace, then the finalizer.
use dploy.Prelude.{Bool, List, is_empty, if◌then◌else◌}
use dploy.Prelude.Text.{codes}
use dploy.V1alpha1.Common.{Condition}
use dploy.V1alpha1.Instance.{InstancePhase, DployInstance}
use dploy.Flux.{engine_resource_name}
use dploy.Cluster.{
  not_found, ok, err, Kube, Key, key, Call, M, ◌>>=◌, ◌>>◌, pure, done, fail, attempt, ask,
}
use dploy.Cluster.Requests.{write, write_instance}
use dploy.ClaimController.{Requeue, no_requeue}
use dploy.InstanceController.Meta.{
  deletion_requeue, instance_finalizer, contains_finalizer, remove_finalizer, patch_status,
}

abbrev pub release_key : DployInstance → Key
release_key inst = key inst.meta.namespace (engine_resource_name inst)

module _ (kube : Kube) where
  abbrev pub get_helm_release : DployInstance → M (Bool × List Condition)
  get_helm_release inst =
      ask (Call.get_helm_release (release_key inst))
        (λ log. kube.get_helm_release log (release_key inst))

  -- A delete that counts an object already gone as deleted.
  unfoldable pub write_unless_gone : Call → M (Unit {0})
  write_unless_gone c = do
    r ← attempt (write kube c)
    elim r [ err not_found ↦ done | err e ↦ fail e | ok u ↦ done ]

  -- The HelmRelease is still there: it is deleted, unless it is being deleted already.
  unfoldable pub await_uninstall : DployInstance → Bool → M Requeue
  await_uninstall inst deleting = do
    if deleting then done else write_unless_gone (Call.delete_helm_release (release_key inst))
    attempt (patch_status kube inst)
    pure deletion_requeue

  -- The HelmRelease is gone.
  unfoldable pub finish_teardown : DployInstance → M Requeue
  finish_teardown inst = do
    if is_empty inst.status.namespace
        then done
        else write_unless_gone (Call.delete_namespace inst.status.namespace)
    write_instance kube (
        Call.update_instance (record inst {
          meta = record (inst.meta) { finalizers = remove_finalizer inst.meta.finalizers };
        }))
    pure no_requeue

  unfoldable pub reconcile_delete : DployInstance → M Requeue
  reconcile_delete inst =
      let expiring = record inst {
        status = record (inst.status) {
          phase = InstancePhase.expiring;
          health = codes "Progressing";
        };
      } in
      let tear_down : M Requeue = do
        r ← attempt (get_helm_release expiring)
        elim r [
          | ok (deleting, conditions) ↦ await_uninstall expiring deleting
          | err not_found ↦ finish_teardown expiring
          | err e ↦ fail e
        ]
      in if contains_finalizer instance_finalizer inst.meta.finalizers
        then tear_down
        else pure no_requeue
