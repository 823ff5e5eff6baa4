-- ===== src/InstanceController/Settles.antt =====
-- The metadata of an instance or a claim is written until it is as wanted, and then never again.
use dploy.Prelude.{◌≡◌, Bool, true, false, Option, List, [], ◌∷◌, ◌++◌, arith}
use dploy.Prelude.Text.{Text, codes, text_eq_refl}
use dploy.V1alpha1.Instance.{DployInstance}
use dploy.V1alpha1.Claim.{DployInstanceClaim}
use dploy.Naming.{sanitize}
use dploy.ClaimController.{want_label, want_owner_label}
use dploy.ClaimController
use dploy.InstanceController.Meta.{
  instance_finalizer, contains_finalizer, want_finalizer, want_pooled_label, ensure_meta,
}

want_label_again :
    (l : Option Text) (v : Text) → want_label (want_label l v).0 v ≡ ((want_label l v).0, false)
unfolding want_label
want_label_again l v = ground (arith, text_eq_refl v)

want_owner_label_again :
    (l : Option Text) (o : Text)
    → want_owner_label (want_owner_label l o).0 o ≡ ((want_owner_label l o).0, false)
unfolding want_owner_label
want_owner_label_again l o = ground (arith, want_label_again l o)

want_pooled_label_again :
    (l : Option Text) (p : Bool)
    → want_pooled_label (want_pooled_label l p).0 p ≡ ((want_pooled_label l p).0, false)
unfolding want_pooled_label
want_pooled_label_again l p = ground (arith, want_label_again l (codes "true"))

contains_finalizer-append : (f : Text) (fs : List Text) → contains_finalizer f (fs ++ f ∷ []) ≡ true
unfolding contains_finalizer
contains_finalizer-append f [] = ground (arith, text_eq_refl f)
contains_finalizer-append f (x ∷ fs) = ground (arith, contains_finalizer-append f fs)

want_finalizer_again :
    (fs : List Text) → want_finalizer (want_finalizer fs).0 ≡ ((want_finalizer fs).0, false)
unfolding want_finalizer
want_finalizer_again fs = ground (arith, contains_finalizer-append instance_finalizer fs)

-- After one pass of ensureMeta, on an instance or on a claim, the next pass changes nothing and
-- says so, so that a reconcile goes past the metadata after at most one write of it.
ensure_meta_settles :
    (inst : DployInstance) (claim : DployInstanceClaim)
    → (ensure_meta (ensure_meta inst).0 ≡ ((ensure_meta inst).0, false))
      × (ClaimController.ensure_meta (ClaimController.ensure_meta claim).0
          ≡ ((ClaimController.ensure_meta claim).0, false))
unfolding ensure_meta ClaimController.ensure_meta
ensure_meta_settles inst claim = (
  ground (
    arith,
    want_finalizer_again inst.meta.finalizers,
    want_label_again inst.meta.labels.managed (codes "true"),
    want_label_again inst.meta.labels.template inst.spec.template_ref,
    want_pooled_label_again inst.meta.labels.pooled inst.spec.pooled,
    want_owner_label_again inst.meta.labels.owner (sanitize inst.spec.owner),
  ),
  ground (
    arith,
    want_label_again claim.meta.labels.managed (codes "true"),
    want_label_again claim.meta.labels.template claim.spec.template_ref,
    want_owner_label_again claim.meta.labels.owner (sanitize claim.spec.owner),
  ),
)
