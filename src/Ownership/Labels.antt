-- ===== src/Ownership/Labels.antt =====
-- What the writes of a claim controller do to the label that names the holder.
use dploy.Prelude.{◌≡◌, refl, true, Option, none, some, [], ◌∷◌, List, arith, is_empty}
use dploy.Prelude.Int.{ℤ}
use dploy.Prelude.Text.{Text}
use dploy.V1alpha1.Common.{Time, OwnerReference}
use dploy.V1alpha1.Instance.{DployInstance}
use dploy.V1alpha1.Claim.{DployInstanceClaim}
use dploy.Ttl.{stamp_bound_at}
use dploy.ClaimController.{is_claimable, stamp_if_bound, desired_instance}
use dploy.Ownership.History.{claim_uid_of}

is_empty-eq : (t : Text) → is_empty t ≡ true → t ≡ []
is_empty-eq [] h = refl
is_empty-eq (c ∷ t) h = ground arith

pub is_claimable-claim_uid_of : (i : DployInstance) → is_claimable i ≡ true → claim_uid_of i ≡ []
unfolding is_claimable
is_claimable-claim_uid_of i h = is_empty-eq (claim_uid_of i) (ground arith)

stamp_if_bound-claim_uid_of :
    (at : Option Time) (i : DployInstance) → claim_uid_of (stamp_if_bound at i) ≡ claim_uid_of i
unfolding stamp_if_bound stamp_bound_at
stamp_if_bound-claim_uid_of none i = refl
stamp_if_bound-claim_uid_of (some t) i = ground arith

-- A synchronisation writes its claim's uid.
pub desired_instance-claim_uid_of :
    (claim : DployInstanceClaim) (ttl : ℤ) (expires_at : Option Time) (refs : List OwnerReference)
    (i : DployInstance)
    → claim_uid_of (desired_instance claim ttl expires_at refs i) ≡ claim.meta.uid
unfolding desired_instance
desired_instance-claim_uid_of claim ttl expires_at refs i =
    stamp_if_bound-claim_uid_of claim.status.bound_at _
