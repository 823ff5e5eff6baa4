-- ===== src/InstanceController/Rounds.antt =====
-- The teardown of an instance comes to its end.
use dploy.Prelude.{
  ℕ, zero, suc, ◌+◌, ◌≤◌, ◌<◌, ◌≡◌, refl, Bool, true, false, some, List, [], ◌∷◌, arith, sym, subst,
  select, is_empty, if◌then◌else◌,
}
use dploy.Prelude.Text.{Text, codes}
use dploy.V1alpha1.Common.{Time, Condition}
use dploy.V1alpha1.Instance.{InstancePhase, DployInstance}
use dploy.Flux.{engine_resource_name}
use dploy.ClaimController.{no_requeue}
use dploy.Cluster.{Kube, Key, Call, Log, ok, err, not_found, cached}
use dploy.Cluster.Traces.{count_calls}
use dploy.InstanceController.Meta.{instance_finalizer, contains_finalizer, remove_finalizer}
use dploy.InstanceController.Teardown.{
  release_key, write_unless_gone, finish_teardown, reconcile_delete,
}
use dploy.InstanceController.Reconcile.{reconcile}
use dploy.InstanceController.Ends.{updates, release_reads, reconcile_dying, delete_awaits}

-- The instance is being deleted and still guarded, and its release has this key.
abbrev pub IsDying : Key → DployInstance → Type 0
IsDying k i =
    ((t : Time) × (i.meta.deletion_timestamp ≡ some t))
    × (contains_finalizer instance_finalizer i.meta.finalizers ≡ true)
    × (release_key i ≡ k)

contains_finalizer-remove_finalizer :
    (fs : List Text) → contains_finalizer instance_finalizer (remove_finalizer fs) ≡ false
unfolding remove_finalizer contains_finalizer select
contains_finalizer-remove_finalizer [] = refl
contains_finalizer-remove_finalizer (x ∷ fs) =
    ground (arith, contains_finalizer-remove_finalizer fs)

module _ (kube : Kube) where
  -- The log ends with a write of the instance without its finalizer.
  abbrev pub Frees : Log → Type 0
  Frees log =
      (i : DployInstance) × (earlier : Log) × (log ≡ Call.update_instance i ∷ earlier)
      × (contains_finalizer instance_finalizer i.meta.finalizers ≡ false)

  -- The log after that many reconciles.
  unfoldable pub rounds : Key → ℕ → Log → Log
  rounds req zero log = log
  rounds req (suc n) log = (reconcile kube req (rounds req n log)).1

  -- An instance that is being deleted, whose release answers the first n reads and then is gone.
  abbrev pub TearsDown : Key → Key → ℕ → Log → Type 0
  TearsDown req k n log =
      ((l : Log) → (i : DployInstance) × (kube.get_instance l cached req ≡ ok i) × IsDying k i)
      × ((l : Log)
          → release_reads kube l < n + release_reads kube log
          → (there : Bool × List Condition) × (kube.get_helm_release l k ≡ ok there))
      × ((l : Log)
          → n + release_reads kube log ≤ release_reads kube l
          → kube.get_helm_release l k ≡ err not_found)

  module _ (deletes : (l : Log) (n : Text) → kube.write l (Call.delete_namespace n) ≡ ok tt)
      (writes : (l : Log) (i : DployInstance)
        → (j : DployInstance) × (kube.write_instance l (Call.update_instance i) ≡ ok j)) where
    delete-Frees :
        (i : DployInstance) (log : Log)
        → contains_finalizer instance_finalizer i.meta.finalizers ≡ true
        → kube.get_helm_release log (release_key i) ≡ err not_found
        → ((reconcile_delete kube i log).0 ≡ ok no_requeue) × Frees (reconcile_delete kube i log).1
    unfolding reconcile_delete finish_teardown write_unless_gone engine_resource_name
    delete-Frees i log held gone =
        let freed : DployInstance = record i {
          status = record (i.status) {
            phase = InstancePhase.expiring;
            health = codes "Progressing";
          };
          meta = record (i.meta) { finalizers = remove_finalizer i.meta.finalizers };
        } in
        let asked : Log = Call.get_helm_release (release_key i) ∷ log in
        let cleaned : Log =
          if is_empty i.status.namespace
          then asked
          else Call.delete_namespace i.status.namespace ∷ asked in
        let d = deletes asked i.status.namespace in
        let w = (writes cleaned freed).1 in
        (
          ground (arith, d, w),
          (
            freed,
            cleaned,
            ground (arith, d, w),
            contains_finalizer-remove_finalizer i.meta.finalizers,
          ),
        )

    round_waits :
        (req k : Key) (n : ℕ) (log l : Log)
        → TearsDown req k n log
        → release_reads kube l < n + release_reads kube log
        → (updates kube (reconcile kube req l).1 ≡ updates kube l)
          × (release_reads kube (reconcile kube req l).1 ≡ suc (release_reads kube l))
    unfolding count_calls
    round_waits req k n log l (dying, stays, gone) early =
        let (i, read, ((t, dead), held, at)) = dying l in
        let asked : Log = Call.get_instance cached req ∷ l in
        let (there, h) = stays asked early in
        rw (reconcile_dying kube req i t l read dead) (
          delete_awaits kube i asked there held
            (subst (λ key. kube.get_helm_release asked key ≡ ok there) (sym at) h))

    round-Frees :
        (req k : Key) (n : ℕ) (log l : Log)
        → TearsDown req k n log
        → n + release_reads kube log ≤ release_reads kube l
        → ((reconcile kube req l).0 ≡ ok no_requeue) × Frees (reconcile kube req l).1
    unfolding count_calls
    round-Frees req k n log l (dying, stays, gone) late =
        let (i, read, ((t, dead), held, at)) = dying l in
        let asked : Log = Call.get_instance cached req ∷ l in
        rw (reconcile_dying kube req i t l read dead) (
          delete-Frees i asked held (
            subst (λ key. kube.get_helm_release asked key ≡ err not_found) (sym at)
              (gone asked late)))

    rounds_wait :
        (req k : Key) (n : ℕ) (log : Log) (m : ℕ)
        → TearsDown req k n log
        → m ≤ n
        → (updates kube (rounds req m log) ≡ updates kube log)
          × (release_reads kube (rounds req m log) ≡ m + release_reads kube log)
    unfolding rounds
    rounds_wait req k n log zero h le = (refl, omega arith)
    rounds_wait req k n log (suc m) h le =
        let (same, reads) = rounds_wait req k n log m h (omega arith) in
        let (same', reads') = round_waits req k n log (rounds req m log) h (omega arith) in
        (omega arith, omega arith)

    -- An instance that is being deleted, whose release the server keeps for n reads of it: the next n
    -- reconciles write nothing of its metadata, so that it stays guarded, and the one after them ends
    -- with no requeue, its last call being the write of the instance without its finalizer. The
    -- writes and the deletes of namespaces succeed.
    pub reconcile-Frees :
        (req k : Key) (n : ℕ) (log : Log)
        → TearsDown req k n log
        → (updates kube (rounds req n log) ≡ updates kube log)
          × ((reconcile kube req (rounds req n log)).0 ≡ ok no_requeue)
          × Frees (rounds req (suc n) log)
    unfolding rounds
    reconcile-Frees req k n log h =
        let (same, reads) = rounds_wait req k n log n h (omega arith) in
        let (done, frees) = round-Frees req k n log (rounds req n log) h (omega arith) in
        (same, done, frees)
