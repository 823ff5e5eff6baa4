-- ===== src/TemplateController/Purge.antt =====
-- Shrinking a pool: purgeRank, isPurgeable, sortPurgeVictims and purgeSurplus.
use dploy.Prelude.{ℕ, suc, Bool, ◌&&◌, ◌==◌, some, List, [], ◌∷◌, ltb, if◌then◌else◌, is_empty}
use dploy.Prelude.Text.{text_lt}
use dploy.V1alpha1.Common.{value, is_zero}
use dploy.V1alpha1.Instance.{InstancePhase, DployInstance}
use dploy.Ttl.{time_before, time_eq}
use dploy.Sorting.{sort_by}
use dploy.Cluster.{
  not_found, conflict, ok, err, Kube, key, direct, Precondition, Call, M, ◌>>=◌, pure, fail,
  attempt,
}
use dploy.Cluster.Requests.{get_instance, write}
use dploy.TemplateController.Pool.{is_available}

unfoldable pub purge_rank : DployInstance → ℕ
purge_rank inst = elim inst.status.phase [
  | InstancePhase.failed ↦ 0
  | InstancePhase.available ↦ 2
  | _ ↦ 1
]

unfoldable pub is_purgeable : DployInstance → Bool
is_purgeable inst =
    is_zero inst.meta.deletion_timestamp
    && (is_empty inst.spec.owner && is_empty (value inst.meta.labels.claim_uid))

-- By rank, then newest first, then by name.
unfoldable pub goes_first : DployInstance → DployInstance → Bool
goes_first a b =
    if purge_rank a == purge_rank b
    then (if time_eq a.meta.creation_timestamp b.meta.creation_timestamp
        then text_lt a.meta.name b.meta.name
        else time_before b.meta.creation_timestamp a.meta.creation_timestamp)
    else ltb (purge_rank a) (purge_rank b)

unfoldable pub sort_purge_victims : List DployInstance → List DployInstance
sort_purge_victims unclaimed = sort_by goes_first unclaimed

-- The preconditions of a victim's delete.
abbrev pub as_read : DployInstance → Precondition
as_read fresh = record { uid = fresh.meta.uid; resource_version = some fresh.meta.resource_version }

module _ (kube : Kube) where
  -- The loop over the victims, with so many deleted behind it, and so many of those Available.
  unfoldable pub purge : List DployInstance → ℕ → ℕ → ℕ → M (ℕ × ℕ)
  purge [] excess deleted deleted_available = pure (deleted, deleted_available)
  purge (inst ∷ victims) excess deleted deleted_available =
      let skip : M (ℕ × ℕ) = purge victims excess deleted deleted_available in
      let delete_fresh : DployInstance → M (ℕ × ℕ) = λ fresh. do
        r ← attempt (write kube (Call.delete_instance fresh (some (as_read fresh))))
        elim r [
          | ok u ↦
              purge victims excess (suc deleted)
                (if is_available fresh then suc deleted_available else deleted_available)
          | err conflict ↦ skip
          | err not_found ↦ skip
          | err e ↦ fail e
        ]
      in let visit : M (ℕ × ℕ) = do
        r ← attempt (get_instance kube direct (key inst.meta.namespace inst.meta.name))
        elim r [
          | ok fresh ↦ if is_purgeable fresh then delete_fresh fresh else skip
          | err not_found ↦ skip
          | err e ↦ fail e
        ]
        in if deleted == excess then pure (deleted, deleted_available) else visit

  -- How many were deleted, and how many of those were Available.
  unfoldable pub purge_surplus : List DployInstance → ℕ → M (ℕ × ℕ)
  purge_surplus unclaimed excess = purge (sort_purge_victims unclaimed) excess 0 0
