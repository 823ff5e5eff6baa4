-- ===== src/ClaimController/Watch.antt =====
-- claimsForInstance: which claims an event of an instance wakes.
use dploy.Prelude.{
  Bool, true, false, not, ◌||◌, List, [], ◌∷◌, map, select, is_empty, if◌then◌else◌,
}
use dploy.V1alpha1.Common.{value}
use dploy.V1alpha1.Instance.{DployInstance}
use dploy.V1alpha1.Claim.{ClaimPhase, DployInstanceClaim}
use dploy.Cluster.{ok, err, Kube, Key, key, by_template, M, ◌>>=◌, pure, attempt}
use dploy.Cluster.Requests.{list_claims}

is_pending : DployInstanceClaim → Bool
is_pending c = elim c.status.phase [ ClaimPhase.pending ↦ true | _ ↦ false ]

key_of : DployInstanceClaim → Key
key_of c = key c.meta.namespace c.meta.name

module _ (kube : Kube) where
  unfoldable pub claims_for_instance : DployInstance → M (List Key)
  unfolding is_pending key_of
  claims_for_instance inst =
      let name = value inst.meta.labels.claim in
      let waiting : M (List Key) = do
        r ← attempt (list_claims kube inst.meta.namespace (by_template inst.spec.template_ref))
        elim r [ err e ↦ pure [] | ok claims ↦ pure (map key_of (select is_pending claims)) ]
      in if not (is_empty name)
        then pure (key inst.meta.namespace name ∷ [])
        else if not inst.spec.pooled || not (is_empty inst.spec.owner)
        then pure []
        else waiting
