-- ===== src/InstanceController/Ends.antt =====
-- The teardown of an instance keeps the finalizer until the release and the namespace are gone.
use dploy.Prelude.{
  ℕ, suc, ◌≡◌, ◌≢◌, Bool, true, false, ◌⊎◌, inl, inr, some, List, ◌∷◌, arith, is_empty,
}
use dploy.Prelude.Text.{codes}
use dploy.V1alpha1.Common.{Time, Condition}
use dploy.V1alpha1.Instance.{InstancePhase, DployInstance}
use dploy.Flux.{engine_resource_name}
use dploy.Cluster.{Kube, Key, Call, Log, ok, err, Error, not_found, cached}
use dploy.Cluster.Traces.{count_calls}
use dploy.InstanceController.Meta.{instance_finalizer, contains_finalizer, patch_status}
use dploy.InstanceController.Teardown.{
  release_key, write_unless_gone, await_uninstall, finish_teardown, reconcile_delete,
}
use dploy.InstanceController.Reconcile.{reconcile, reconcile_instance}

-- A write of the instance's metadata.
abbrev pub is_update : Call → Bool
is_update (Call.update_instance i) = true
is_update _ = false

abbrev pub is_release_read : Call → Bool
is_release_read (Call.get_helm_release k) = true
is_release_read _ = false

module _ (kube : Kube) where
  abbrev pub release_reads : Log → ℕ
  release_reads = count_calls is_release_read

  abbrev pub updates : Log → ℕ
  updates = count_calls is_update

  patch_calls :
      (i : DployInstance) (log : Log)
      → (updates (patch_status kube i log).1 ≡ updates log)
        × (release_reads (patch_status kube i log).1 ≡ release_reads log)
  unfolding patch_status count_calls
  patch_calls i log = (ground arith, ground arith)

  await_calls :
      (i : DployInstance) (d : Bool) (log : Log)
      → (updates (await_uninstall kube i d log).1 ≡ updates log)
        × (release_reads (await_uninstall kube i d log).1 ≡ release_reads log)
  unfolding await_uninstall write_unless_gone count_calls
  await_calls i d log = (grind (arith, patch_calls), grind (arith, patch_calls))

  pub reconcile_dying :
      (req : Key) (inst : DployInstance) (t : Time) (log : Log)
      → kube.get_instance log cached req ≡ ok inst
      → inst.meta.deletion_timestamp ≡ some t
      → reconcile kube req log ≡ reconcile_delete kube inst (Call.get_instance cached req ∷ log)
  unfolding reconcile reconcile_instance
  reconcile_dying req inst t log read dead = ground arith

  -- The release cannot be read for this error, or it is gone and the namespace cannot be deleted.
  abbrev pub StuckOn : DployInstance → Log → Error → Type 0
  StuckOn i log e =
      (kube.get_helm_release log (release_key i) ≡ err e)
      ⊎ ((kube.get_helm_release log (release_key i) ≡ err not_found)
          × (is_empty i.status.namespace ≡ false)
          × (kube.write (Call.get_helm_release (release_key i) ∷ log)
                (Call.delete_namespace i.status.namespace)
              ≡ err e))

  pub delete_awaits :
      (i : DployInstance) (log : Log) (there : Bool × List Condition)
      → contains_finalizer instance_finalizer i.meta.finalizers ≡ true
      → kube.get_helm_release log (release_key i) ≡ ok there
      → (updates (reconcile_delete kube i log).1 ≡ updates log)
        × (release_reads (reconcile_delete kube i log).1 ≡ suc (release_reads log))
  unfolding reconcile_delete engine_resource_name count_calls
  delete_awaits i log there held h =
      let expiring : DployInstance = record i {
        status = record (i.status) { phase = InstancePhase.expiring; health = codes "Progressing" };
      } in
      let calls = await_calls expiring there.0 (Call.get_helm_release (release_key i) ∷ log) in
      (grind (arith, calls), grind (arith, calls))

  delete_stuck :
      (i : DployInstance) (log : Log) (e : Error)
      → contains_finalizer instance_finalizer i.meta.finalizers ≡ true
      → e ≢ not_found
      → StuckOn i log e
      → ((reconcile_delete kube i log).0 ≡ err e)
        × (updates (reconcile_delete kube i log).1 ≡ updates log)
  unfolding reconcile_delete finish_teardown write_unless_gone engine_resource_name count_calls
  delete_stuck i log e held other (inl h) = (grind arith, grind arith)
  delete_stuck i log e held other (inr (gone, placed, fails)) = (grind arith, grind arith)

  -- A reconcile of an instance that is being deleted fails with the error that kept its HelmRelease
  -- from being read, or, once that is gone, its namespace from being deleted; the finalizer stays,
  -- since nothing of the instance's metadata is written.
  reconcile_stuck :
      (req : Key) (inst : DployInstance) (t : Time) (log : Log) (e : Error)
      → kube.get_instance log cached req ≡ ok inst
      → inst.meta.deletion_timestamp ≡ some t
      → contains_finalizer instance_finalizer inst.meta.finalizers ≡ true
      → e ≢ not_found
      → StuckOn inst (Call.get_instance cached req ∷ log) e
      → ((reconcile kube req log).0 ≡ err e) × (updates (reconcile kube req log).1 ≡ updates log)
  unfolding count_calls
  reconcile_stuck req inst t log e read dead held other h =
      rw (reconcile_dying req inst t log read dead)
        (delete_stuck inst (Call.get_instance cached req ∷ log) e held other h)
