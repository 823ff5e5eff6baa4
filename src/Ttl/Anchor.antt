-- ===== src/Ttl/Anchor.antt =====
-- The anchor of a lifetime: the stamp that the binding writes, and what stands in for it.
use dploy.Prelude.{◌≡◌, true, some, arith}
use dploy.Prelude.Int.{ℤ, ◌+ℤ◌, ◌-ℤ◌, +ℤ_parts, -ℤ_parts, eq_of_parts}
use dploy.V1alpha1.Common.{Time, absent, parsed}
use dploy.V1alpha1.Instance.{DployInstance}
use dploy.Ttl.Clock.{truncate_second, stamp_bound_at, bound_at_of, expiry_from, seconds}

-- The stamp of a binding stands for the whole second at or before it, whenever it is read.
bound_at_of-stamp_bound_at :
    (inst : DployInstance) (bound_at now : Time)
    → inst.meta.bound_at_stamp ≡ absent
    → bound_at_of (stamp_bound_at inst bound_at) now ≡ truncate_second bound_at
unfolding bound_at_of stamp_bound_at
bound_at_of-stamp_bound_at inst bound_at now h = ground arith

-- A stamp is never overwritten: once it can be read, later stamping leaves the anchor as it is, at
-- any time.
stamp_bound_at_keeps :
    (inst : DployInstance) (t bound_at now : Time)
    → inst.meta.bound_at_stamp ≡ parsed t
    → (stamp_bound_at inst bound_at ≡ inst) × (bound_at_of (stamp_bound_at inst bound_at) now ≡ t)
unfolding bound_at_of stamp_bound_at
stamp_bound_at_keeps inst t bound_at now h = ground arith

shift_expiry :
    (bound_at now exp : Time) (ttl : ℤ)
    → expiry_from bound_at ttl ≡ some exp
    → expiry_from now ttl ≡ some (exp +ℤ (now -ℤ bound_at))
unfolding expiry_from
shift_expiry bound_at now exp ttl e = ground (
  arith,
  eq_of_parts (now +ℤ seconds ttl) (bound_at +ℤ seconds ttl +ℤ (now -ℤ bound_at)),
  +ℤ_parts now (seconds ttl),
  +ℤ_parts bound_at (seconds ttl),
  +ℤ_parts (bound_at +ℤ seconds ttl) (now -ℤ bound_at),
  -ℤ_parts now bound_at,
)

-- Without a stamp, the clock of a pooled instance starts anew when it is read: a lifetime that would
-- have ended at `exp` by the binding at `bound_at` ends later by the time since the binding.
bound_at_of_restarts :
    (inst : DployInstance) (bound_at now exp : Time) (ttl : ℤ)
    → inst.meta.bound_at_stamp ≡ absent
    → inst.spec.pooled ≡ true
    → expiry_from bound_at ttl ≡ some exp
    → expiry_from (bound_at_of inst now) ttl ≡ some (exp +ℤ (now -ℤ bound_at))
unfolding bound_at_of
bound_at_of_restarts inst bound_at now exp ttl h p e =
    rw restart (shift_expiry bound_at now exp ttl e)
  where
    restart : bound_at_of inst now ≡ now
    restart = ground arith
