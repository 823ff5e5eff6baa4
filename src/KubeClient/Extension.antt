-- ===== src/KubeClient/Extension.antt =====
-- What an extension asks for is what the operator then grants.
use dploy.Prelude.{◌≡◌, subst, some, ◌∷◌, arith}
use dploy.Prelude.Int.{ℤ, pos, two63, ◌+ℤ◌, ◌≤ℤ◌, ◌<ℤ◌, wrap64}
use dploy.Prelude.Text.{Text}
use dploy.V1alpha1.Common.{Time}
use dploy.V1alpha1.Template.{DployTemplate}
use dploy.V1alpha1.Claim.{DployInstanceClaim}
use dploy.Effective.{Effective}
use dploy.Ttl.{resolve_instance_ttl, max_lifetime, resolve_claim_ttl}
use dploy.Ttl.Granted.{resolve_claim_ttl-request}
use dploy.Cluster.{Kube, Call, Log, ok}
use dploy.KubeClient.Claims.{wanted_ttl, with_ttl, deadline, extend_claim}

module _ (claim : DployInstanceClaim) (step : ℤ) (more : pos 0 <ℤ step)
    (runs : pos 0 <ℤ claim.status.ttl_seconds)
    (below : claim.status.ttl_seconds <ℤ claim.status.max_ttl_seconds)
    (fits : claim.status.ttl_seconds +ℤ step <ℤ pos two63) where
  wanted_ttl_bounds :
      (claim.status.ttl_seconds <ℤ wanted_ttl claim step)
      × (wanted_ttl claim step ≤ℤ claim.status.max_ttl_seconds)
  unfolding wanted_ttl wrap64 ◌+ℤ◌
  wanted_ttl_bounds = ground arith

  -- A bound claim whose granted lifetime is below its ceiling is extended by one patch, to a longer
  -- lifetime within the ceiling; and where the template still has that ceiling, the operator grants
  -- just the lifetime that the patch asks for.
  pub extend_claim-resolve_claim_ttl :
      (kube : Kube) (namespace : Text) (tmpl : DployTemplate) (eff : Effective) (bound_at : Time)
      (patched : DployInstanceClaim) (log : Log)
      → claim.status.bound_at ≡ some bound_at
      → claim.status.max_ttl_seconds ≡ max_lifetime (resolve_instance_ttl tmpl eff) tmpl eff
      → kube.write_claim log (Call.patch_claim_spec (with_ttl (wanted_ttl claim step) claim))
        ≡ ok patched
      → (extend_claim kube namespace claim step log ≡ (
        ok (deadline (wanted_ttl claim step) patched.status.bound_at),
        Call.patch_claim_spec (with_ttl (wanted_ttl claim step) claim) ∷ log,
      ))
        × (claim.status.ttl_seconds <ℤ wanted_ttl claim step)
        × (resolve_claim_ttl (with_ttl (wanted_ttl claim step) claim) tmpl eff
            ≡ (wanted_ttl claim step, claim.status.max_ttl_seconds))
  unfolding extend_claim resolve_claim_ttl
  extend_claim-resolve_claim_ttl kube namespace tmpl eff bound_at patched log b m w =
      let wanted = wanted_ttl claim step in
      let (longer, within) = wanted_ttl_bounds in
      let granted =
        resolve_claim_ttl-request (with_ttl wanted claim) tmpl eff (omega (arith, longer))
          (subst (λ x. wanted ≤ℤ x) m within) in
      (ground arith, longer, ground (arith, granted))
