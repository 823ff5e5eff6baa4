-- ===== src/Tests/Lifetimes.antt =====
-- The theorems on lifetimes at a concrete template and claim.
use dploy.Prelude.{◌≡◌, refl, some, arith}
use dploy.Prelude.Int.{pos, ◌+ℤ◌, ◌*ℤ◌, ◌≤ℤ◌, ◌<ℤ◌, wrap64}
use dploy.Prelude.Text.{codes}
use dploy.V1alpha1.Common.{Time}
use dploy.V1alpha1.Instance.{DployInstance}
use dploy.V1alpha1.Claim.{DployInstanceClaim}
use dploy.Effective.{fallbacks}
use dploy.Ttl.{resolve_instance_ttl, max_lifetime, resolve_claim_ttl, expiry_from}
use dploy.Ttl.Granted.{resolve_claim_ttl_bounds, expiry_from_wraps}
use dploy.Tests.Fixtures.{lab, request, warm}

lab_ttl : resolve_instance_ttl lab fallbacks ≡ pos 86400
unfolding resolve_instance_ttl
lab_ttl = refl

lab_ceiling : max_lifetime (pos 86400) lab fallbacks ≡ pos 108000
unfolding max_lifetime wrap64 ◌+ℤ◌ ◌*ℤ◌
lab_ceiling = refl

resolve_claim_ttl_bounds_example :
    (pos 0 <ℤ (resolve_claim_ttl request lab fallbacks).0)
    × ((resolve_claim_ttl request lab fallbacks).0 ≤ℤ (resolve_claim_ttl request lab fallbacks).1)
unfolding resolve_instance_ttl max_lifetime wrap64 ◌+ℤ◌ ◌*ℤ◌
resolve_claim_ttl_bounds_example =
    resolve_claim_ttl_bounds request lab fallbacks (omega arith) (omega arith)

-- The claim, asking for 100000 seconds.
abbrev longer : DployInstanceClaim
longer = record request { spec = record (request.spec) { ttl_seconds = pos 100000 } }

expiry_from_wraps_example :
    (exp : Time) × (expiry_from (pos 5) (pos 10000000000) ≡ some exp) × (exp <ℤ pos 5)
expiry_from_wraps_example = expiry_from_wraps (pos 5) 10000000000 (omega arith) (omega arith)

abbrev member : DployInstance
member = warm (codes "lab-a") 10
