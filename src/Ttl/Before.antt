-- ===== src/Ttl/Before.antt =====
-- The order of metav1 times.
use dploy.Prelude.{◌≡◌, refl, true, false, Option, none, some, arith}
use dploy.Prelude.Int.{◌≤ℤ◌}
use dploy.V1alpha1.Common.{Time}
use dploy.Ttl.Clock.{time_before, time_eq}

-- A time is not after another; what was never set is after nothing.
abbrev pub NotAfter : Option Time → Option Time → Type 0
NotAfter none u = Unit
NotAfter (some s) none = true ≡ false
NotAfter (some s) (some t) = s ≤ℤ t

pub time_before-NotAfter : (s t : Option Time) → time_before t s ≡ false → NotAfter s t
unfolding time_before
time_before-NotAfter none t h = tt
time_before-NotAfter (some s) none h = ground arith
time_before-NotAfter (some s) (some t) h = ground arith

pub time_before_steps :
    (s t u : Option Time)
    → time_before s t ≡ false
    → time_before t u ≡ false
    → time_before s u ≡ false
unfolding time_before
time_before_steps none none none h k = refl
time_before_steps none none (some u) h k = ground arith
time_before_steps none (some t) u h k = ground arith
time_before_steps (some s) none none h k = refl
time_before_steps (some s) none (some u) h k = ground arith
time_before_steps (some s) (some t) none h k = refl
time_before_steps (some s) (some t) (some u) h k = ground arith

pub time_before_asym : (s t : Option Time) → time_before s t ≡ true → time_before t s ≡ false
unfolding time_before
time_before_asym none none h = refl
time_before_asym none (some t) h = refl
time_before_asym (some s) none h = ground arith
time_before_asym (some s) (some t) h = ground arith

pub time_before_irrefl : (t : Option Time) → time_before t t ≡ false
unfolding time_before
time_before_irrefl none = refl
time_before_irrefl (some t) = ground arith

pub time_before_total :
    (s t : Option Time) → time_before s t ≡ false → time_before t s ≡ false → s ≡ t
unfolding time_before
time_before_total none none h k = refl
time_before_total none (some t) h k = ground arith
time_before_total (some s) none h k = ground arith
time_before_total (some s) (some t) h k = ground arith

-- Equal times are one, and of others one is before.
pub time_eq_before :
    (s t : Option Time)
    → (time_eq s t ≡ true → s ≡ t)
      × (time_before s t ≡ true → time_eq s t ≡ false)
      × (time_eq s t ≡ false → time_before s t ≡ false → time_before t s ≡ true)
unfolding time_before time_eq
time_eq_before none none = ground arith
time_eq_before none (some t) = ground arith
time_eq_before (some s) none = ground arith
time_eq_before (some s) (some t) = ground arith
