-- ===== src/InstanceController/Anonymous.antt =====
-- What handing a pooled instance to a claim changes in its presentation and in its release: nothing.
use dploy.Prelude.{◌≡◌, true, false, Option, List, is_empty, arith}
use dploy.Prelude.Text.{Text}
use dploy.Prelude.Int.{ℤ}
use dploy.V1alpha1.Common.{Time, OwnerReference}
use dploy.V1alpha1.Template.{DployTemplate}
use dploy.V1alpha1.Instance.{DployInstance}
use dploy.V1alpha1.Claim.{DployInstanceClaim}
use dploy.Effective.{Effective}
use dploy.Cluster.{Kube, SourceKind}
use dploy.Flux.{release_spec}
use dploy.Ttl.{stamp_bound_at}
use dploy.ClaimController.{desired_instance}
use dploy.InstanceController.Present.{
  Presentation, presented, unpresentable, build_data, target_namespace_of, present,
}

-- The two present the same status, and ask the same release of Flux, or fail for the same reason.
abbrev pub SameWorkload :
    DployTemplate → Effective → SourceKind → Text → Presentation → Presentation → Type 0
SameWorkload tmpl eff kind name (presented i j) (presented i' j') =
    (i.status ≡ i'.status)
    × (release_spec i tmpl eff kind name i.status.namespace j
        ≡ release_spec i' tmpl eff kind name i'.status.namespace j')
SameWorkload tmpl eff kind name (unpresentable i r) (unpresentable i' r') =
    (i.status ≡ i'.status) × (r ≡ r')
SameWorkload tmpl eff kind name _ _ = true ≡ false

-- For a pooled instance whose namespace is in its status, what present makes of it with a claim's
-- binding written onto it is what it makes of it without: the same status, with its connection, and
-- the same spec of the release, with chart, values and target, or the same refusal; whoever the owner
-- and whatever the parameters.
pub present-desired_instance :
    (kube : Kube) (inst : DployInstance) (claim : DployInstanceClaim) (ttl : ℤ)
    (expires_at : Option Time) (refs : List OwnerReference) (tmpl : DployTemplate) (eff : Effective)
    (kind : SourceKind) (name : Text)
    → inst.spec.pooled ≡ true
    → is_empty inst.status.namespace ≡ false
    → SameWorkload tmpl eff kind name
        (present kube inst tmpl eff)
        (present kube (desired_instance claim ttl expires_at refs inst) tmpl eff)
unfolding present build_data target_namespace_of release_spec desired_instance stamp_bound_at
present-desired_instance kube inst claim ttl expires_at refs tmpl eff kind name p n = ground arith
