-- ===== src/Ttl/Clock.antt =====
-- stampBoundAt, boundAtOf, expiryFrom and isExpired.
use dploy.Prelude.{◌+◌, ◌-◌, ◌/◌, ◌*◌, Bool, true, false, Option, none, some, if◌then◌else◌}
use dploy.Prelude.Int.{ℤ, pos, negsuc, two63, ◌+ℤ◌, ◌-ℤ◌, ◌*ℤ◌, wrap64, ltb_ℤ, leb_ℤ, eq_ℤ}
use dploy.V1alpha1.Common.{Time, absent, parsed}
use dploy.V1alpha1.Instance.{DployInstance}
use dploy.V1alpha1.Claim.{DployInstanceClaim}
use dploy.Effective.{second}

-- time.Duration(n) * time.Second.
unfoldable pub seconds : ℤ → ℤ
seconds n = wrap64 (n *ℤ pos second)

-- Time.Sub, which saturates.
unfoldable pub time_sub : Time → Time → ℤ
time_sub t u =
    let d = t -ℤ u in
    if leb_ℤ (pos two63) d
    then pos (two63 - 1)
    else if ltb_ℤ d (negsuc (two63 - 1))
    then negsuc (two63 - 1)
    else d

-- The whole second at or before a time, as an RFC 3339 text holds it.
unfoldable pub truncate_second : Time → Time
truncate_second (pos n) = pos (n / second * second)
truncate_second (negsuc n) = negsuc (n / second * second + (second - 1))

-- A stamp that is there is kept.
unfoldable pub stamp_bound_at : DployInstance → Time → DployInstance
stamp_bound_at inst bound_at = elim inst.meta.bound_at_stamp [
  | absent ↦ record inst {
    meta = record (inst.meta) { bound_at_stamp = parsed (truncate_second bound_at) };
  }
  | _ ↦ inst
]

-- Where the stamp does not tell: the creation time of an instance that was not pooled, or now.
unfoldable pub anchor_fallback : Option Time → Bool → Time → Time
anchor_fallback none pooled now = now
anchor_fallback (some created) pooled now = if pooled then now else created

-- The last argument is what time.Now returns where it is called.
unfoldable pub bound_at_of : DployInstance → Time → Time
unfolding anchor_fallback
bound_at_of inst now = elim inst.meta.bound_at_stamp [
  | parsed t ↦ t
  | _ ↦ anchor_fallback inst.meta.creation_timestamp inst.spec.pooled now
]

unfoldable pub expiry_from : Time → ℤ → Option Time
unfolding seconds
expiry_from bound_at ttl = if leb_ℤ ttl (pos 0) then none else some (bound_at +ℤ seconds ttl)

-- Whether an expiry, if there is one, has come.
abbrev pub is_past : Option Time → Time → Bool
is_past none now = false
is_past (some exp) now = leb_ℤ exp now

unfoldable pub is_expired : DployInstanceClaim → Time → Bool
is_expired claim now = is_past claim.status.expires_at now

-- metav1.Time's Before; the zero time is before all others.
unfoldable pub time_before : Option Time → Option Time → Bool
time_before t none = false
time_before none (some u) = true
time_before (some t) (some u) = ltb_ℤ t u

-- metav1.Time's Equal.
unfoldable pub time_eq : Option Time → Option Time → Bool
time_eq none none = true
time_eq none (some u) = false
time_eq (some t) none = false
time_eq (some t) (some u) = eq_ℤ t u
