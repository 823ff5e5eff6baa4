-- ===== src/Ttl/Granted.antt =====
-- What the operator grants of a requested lifetime, and when it ends.
use dploy.Prelude.{ℕ, zero, suc, ◌⊎◌, inl, inr, ◌*◌, ◌≤◌, ◌<◌, ◌≡◌, refl, none, some, arith}
use dploy.Prelude.Int.{ℤ, pos, negsuc, ◌+ℤ◌, ◌*ℤ◌, ◌≤ℤ◌, ◌<ℤ◌, wrap64, +ℤ_parts}
use dploy.V1alpha1.Common.{Time}
use dploy.V1alpha1.Template.{DployTemplate}
use dploy.V1alpha1.Claim.{DployInstanceClaim}
use dploy.Effective.{Effective, second}
use dploy.Ttl.Lifetime.{
  requested_ttl, clamp_ttl, resolve_instance_ttl, max_lifetime, resolve_claim_ttl,
}
use dploy.Ttl.Clock.{seconds, expiry_from}

clamp_ttl-within : (ttl max_ttl : ℤ) → pos 0 <ℤ max_ttl → clamp_ttl ttl max_ttl ≤ℤ max_ttl
unfolding clamp_ttl
clamp_ttl-within ttl max_ttl h = ground arith

clamp_ttl-positive :
    (requested base max_ttl : ℤ)
    → pos 0 <ℤ max_ttl
    → pos 0 <ℤ base
    → pos 0 <ℤ clamp_ttl (requested_ttl requested base) max_ttl
unfolding clamp_ttl requested_ttl
clamp_ttl-positive requested base max_ttl h b = ground arith

pub clamp_ttl-eq : (ttl max_ttl : ℤ) → pos 0 <ℤ ttl → ttl ≤ℤ max_ttl → clamp_ttl ttl max_ttl ≡ ttl
unfolding clamp_ttl
clamp_ttl-eq ttl max_ttl h k = ground arith

-- A template with a positive lifetime and a positive ceiling never grants more than the ceiling, and
-- what it grants is positive, whatever the claim requests, unlimited included.
pub resolve_claim_ttl_bounds :
    (claim : DployInstanceClaim) (tmpl : DployTemplate) (eff : Effective)
    → pos 0 <ℤ resolve_instance_ttl tmpl eff
    → pos 0 <ℤ max_lifetime (resolve_instance_ttl tmpl eff) tmpl eff
    → (pos 0 <ℤ (resolve_claim_ttl claim tmpl eff).0)
      × ((resolve_claim_ttl claim tmpl eff).0 ≤ℤ (resolve_claim_ttl claim tmpl eff).1)
unfolding resolve_claim_ttl
resolve_claim_ttl_bounds claim tmpl eff b m =
    let base = resolve_instance_ttl tmpl eff in
    let ceiling = max_lifetime base tmpl eff in
    (
      clamp_ttl-positive claim.spec.ttl_seconds base ceiling m b,
      clamp_ttl-within (requested_ttl claim.spec.ttl_seconds base) ceiling m,
    )

-- A request from one second up to the ceiling is granted as it stands.
pub resolve_claim_ttl-request :
    (claim : DployInstanceClaim) (tmpl : DployTemplate) (eff : Effective)
    → pos 0 <ℤ claim.spec.ttl_seconds
    → claim.spec.ttl_seconds ≤ℤ max_lifetime (resolve_instance_ttl tmpl eff) tmpl eff
    → (resolve_claim_ttl claim tmpl eff).0 ≡ claim.spec.ttl_seconds
unfolding resolve_claim_ttl requested_ttl clamp_ttl
resolve_claim_ttl-request claim tmpl eff h k = ground arith

-- The last lifetime, in seconds, whose nanoseconds fit an int64.
abbrev pub max_duration_seconds : ℕ
max_duration_seconds = 9223372036

seconds-pos : (n : ℕ) → n ≤ max_duration_seconds → seconds (pos n) ≡ pos (n * second)
unfolding seconds ◌*ℤ◌ wrap64
seconds-pos n h = ground arith

-- A positive lifetime of at most 9223372036 seconds ends that many seconds after the binding; a
-- lifetime that is not positive has no end.
expiry_from_lem :
    (bound_at : Time) (ttl : ℤ)
    → ttl ≤ℤ pos max_duration_seconds
    → ((ttl ≤ℤ pos 0) × (expiry_from bound_at ttl ≡ none))
      ⊎ ((n : ℕ) × (ttl ≡ pos n)
          × (0 < n)
          × (expiry_from bound_at ttl ≡ some (bound_at +ℤ pos (n * second))))
unfolding expiry_from
expiry_from_lem bound_at (pos zero) h = inl (omega arith, refl)
expiry_from_lem bound_at (pos (suc n)) h =
    inr (suc n, refl, omega arith, rw (seconds-pos (suc n) (omega arith)) (ground arith))
expiry_from_lem bound_at (negsuc n) h = inl (omega arith, ground arith)

seconds_wrap : (n : ℕ) → max_duration_seconds < n → n ≤ 18446744073 → seconds (pos n) <ℤ pos 0
unfolding seconds ◌*ℤ◌ wrap64
seconds_wrap n h k = ground arith

-- A longer lifetime, up to 18446744073 seconds, wraps around: its end lies before the binding.
pub expiry_from_wraps :
    (bound_at : Time) (n : ℕ)
    → max_duration_seconds < n
    → n ≤ 18446744073
    → (exp : Time) × (expiry_from bound_at (pos n) ≡ some exp) × (exp <ℤ bound_at)
unfolding expiry_from
expiry_from_wraps bound_at n h k = (
  bound_at +ℤ seconds (pos n),
  ground arith,
  omega (arith, seconds_wrap n h k, +ℤ_parts bound_at (seconds (pos n))),
)
