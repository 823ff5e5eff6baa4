-- ===== src/ClaimController/Quota.antt =====
-- The per-owner quota: ownerLimit, ownedInstances, overQuota and evictIfOverQuota.
use dploy.Prelude.{
  ℕ, Bool, true, false, not, none, some, List, [], length, select, is_empty, if◌then◌else◌,
}
use dploy.Prelude.Int.{ℤ, pos, ltb_ℤ, leb_ℤ}
use dploy.Prelude.Text.{Text, text_eq, text_lt}
use dploy.V1alpha1.Common.{value, is_zero}
use dploy.V1alpha1.Template.{DployTemplate}
use dploy.V1alpha1.Instance.{DployInstance}
use dploy.V1alpha1.Claim.{DployInstanceClaim}
use dploy.Effective.{Effective}
use dploy.Naming.{sanitize}
use dploy.Ttl.{time_before}
use dploy.Sorting.{sort_by, index_of}
use dploy.Cluster.{Kube, direct, by_owner, M, ◌>>=◌, ◌>>◌, pure}
use dploy.Cluster.Requests.{list_instances, delete_instance}

unfoldable pub owner_limit : DployTemplate → Effective → ℤ
owner_limit tmpl eff = elim tmpl.spec.max_instances_per_user [
  | none ↦ eff.max_instances_per_user
  | some n ↦ if ltb_ℤ (pos 0) n then n else eff.max_instances_per_user
]

-- Oldest first, and by name where the creation times are equal.
unfoldable pub older : DployInstance → DployInstance → Bool
unfolding time_before
older a b =
    if time_before a.meta.creation_timestamp b.meta.creation_timestamp
    then true
    else if time_before b.meta.creation_timestamp a.meta.creation_timestamp
    then false
    else text_lt a.meta.name b.meta.name

abbrev pub is_live : DployInstance → Bool
is_live i = is_zero i.meta.deletion_timestamp

-- The live ones of a listing, oldest first.
unfoldable pub live_oldest_first : List DployInstance → List DployInstance
live_oldest_first items = sort_by older (select is_live items)

-- How many of them another claim holds.
unfoldable pub held_by_others : Text → List DployInstance → ℕ
held_by_others uid owned =
    length (select (λ i. not (text_eq (value i.meta.labels.claim_uid) uid)) owned)

abbrev pub is_named : Text → DployInstance → Bool
is_named name i = text_eq i.meta.name name

-- Whether the instance of this name is beyond the first `limit`; one that is not listed is not.
unfoldable pub beyond_limit : Text → ℤ → List DployInstance → Bool
beyond_limit name limit ranked = elim (index_of (is_named name) ranked) [
  | none ↦ false
  | some rank ↦ leb_ℤ limit (pos rank)
]

module _ (kube : Kube) where
  unfoldable pub owned_instances : DployInstanceClaim → M (List DployInstance)
  owned_instances claim =
      let owner = sanitize claim.spec.owner in
      let listed : M (List DployInstance) = do
        items ← list_instances kube direct claim.meta.namespace (by_owner owner)
        pure (live_oldest_first items)
      in if is_empty owner then pure [] else listed

  -- Whether the owner holds the limit already, and the limit.
  unfoldable pub over_quota : DployInstanceClaim → DployTemplate → Effective → M (Bool × ℤ)
  over_quota claim tmpl eff =
      let limit = owner_limit tmpl eff in
      let counted : M (Bool × ℤ) = do
        owned ← owned_instances claim
        pure (leb_ℤ limit (pos (held_by_others claim.meta.uid owned)), limit)
      in if leb_ℤ limit (pos 0) then pure (false, pos 0) else counted

  unfoldable pub evict : Bool → ℤ → DployInstance → M (Bool × ℤ)
  evict true limit inst = do delete_instance kube inst; pure (true, limit)
  evict false limit inst = pure (false, limit)

  unfoldable pub evict_if_over_quota :
      DployInstanceClaim → DployTemplate → Effective → DployInstance → M (Bool × ℤ)
  unfolding evict
  evict_if_over_quota claim tmpl eff inst =
      let limit = owner_limit tmpl eff in
      let ranked : M (Bool × ℤ) = do
        owned ← owned_instances claim
        evict (beyond_limit inst.meta.name limit owned) limit inst
      in if leb_ℤ limit (pos 0) then pure (false, pos 0) else ranked
