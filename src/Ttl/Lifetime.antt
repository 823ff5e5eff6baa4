-- ===== src/Ttl/Lifetime.antt =====
-- resolveInstanceTTL, maxLifetime and resolveClaimTTL.
use dploy.Prelude.{◌&&◌, not, Option, none, some, if◌then◌else◌}
use dploy.Prelude.Int.{ℤ, pos, minus_one, ◌+ℤ◌, ◌*ℤ◌, wrap64, ltb_ℤ, leb_ℤ, eq_ℤ}
use dploy.V1alpha1.Common.{TtlSpec}
use dploy.V1alpha1.Template.{DployTemplate}
use dploy.V1alpha1.Claim.{DployInstanceClaim}
use dploy.Effective.{Effective}

unfoldable pub resolve_instance_ttl : DployTemplate → Effective → ℤ
resolve_instance_ttl tmpl eff = elim tmpl.spec.ttl [
  | none ↦ eff.ttl_seconds
  | some t ↦ if eq_ℤ t.seconds (pos 0) then eff.ttl_seconds else t.seconds
]

-- The extend budget of a template: its own numbers where it sets them.
unfoldable pub extend_budget : Option TtlSpec → Effective → ℤ × ℤ
extend_budget none eff = (eff.max_extends, eff.extend_seconds)
extend_budget (some t) eff = (
  if eq_ℤ t.max_extends (pos 0) then eff.max_extends else t.max_extends,
  if ltb_ℤ (pos 0) t.extend_seconds then t.extend_seconds else eff.extend_seconds,
)

unfoldable pub max_lifetime : ℤ → DployTemplate → Effective → ℤ
unfolding extend_budget
max_lifetime base tmpl eff =
    let (max_extends, extend) = extend_budget tmpl.spec.ttl eff in
    if eq_ℤ base minus_one
    then minus_one
    else if leb_ℤ max_extends (pos 0)
    then minus_one
    else wrap64 (base +ℤ wrap64 (max_extends *ℤ extend))

-- The lifetime that the spec asks for.
unfoldable pub requested_ttl : ℤ → ℤ → ℤ
requested_ttl requested base =
    if eq_ℤ requested (pos 0)
    then base
    else if ltb_ℤ requested (pos 0)
    then minus_one
    else requested

-- What is granted of a request under a ceiling.
unfoldable pub clamp_ttl : ℤ → ℤ → ℤ
clamp_ttl ttl max_ttl =
    let ttl' = if eq_ℤ ttl minus_one && not (eq_ℤ max_ttl minus_one) then max_ttl else ttl in
    if ltb_ℤ (pos 0) max_ttl && ltb_ℤ max_ttl ttl' then max_ttl else ttl'

unfoldable pub resolve_claim_ttl : DployInstanceClaim → DployTemplate → Effective → ℤ × ℤ
unfolding requested_ttl clamp_ttl
resolve_claim_ttl claim tmpl eff =
    let base = resolve_instance_ttl tmpl eff in
    let max_ttl = max_lifetime base tmpl eff in
    (clamp_ttl (requested_ttl claim.spec.ttl_seconds base) max_ttl, max_ttl)
