-- ===== src/Naming/Trim.antt =====
-- The passes on text that is already clean or trimmed.
use dploy.Prelude.{
  ℕ, suc, ◌≤◌, ◌≡◌, ◌≢◌, refl, ap, ◌∙◌, Bool, true, false, inl, inr, [], ◌∷◌, ltb, ◌==◌, length,
  take, select, All, All-take, select-All, arith, length-take, Bool-cases,
}
use dploy.Prelude.Text.{Text}
use dploy.Naming.Chars.{
  is_key_char, to_lower, to_dash, clean, trim_left, trim_right, trim, truncate,
}

-- Only lower-case letters, digits and dashes.
abbrev pub IsClean : Text → Type 0
IsClean s = All (λ c. is_key_char c ≡ true) s

abbrev pub starts_with_dash : Text → Bool
starts_with_dash [] = false
starts_with_dash (c ∷ s) = c == b'-'

abbrev pub ends_with_dash : Text → Bool
ends_with_dash [] = false
ends_with_dash (c ∷ []) = c == b'-'
ends_with_dash (c ∷ d ∷ s) = ends_with_dash (d ∷ s)

-- What a DNS label asks of its characters.
pub record IsKey (s : Text) : Type 0 where
  pub clean : IsClean s
  pub no_leading_dash : starts_with_dash s ≡ false
  pub no_trailing_dash : ends_with_dash s ≡ false

pub clean-IsClean : (s : Text) → IsClean (clean s)
unfolding clean
clean-IsClean s = select-All is_key_char _

lower_key_char : (c : ℕ) → is_key_char c ≡ true → to_dash b'@' (to_dash b'.' (to_lower c)) ≡ c
unfolding is_key_char to_dash to_lower
lower_key_char c h = ground arith

pub clean-eq_of_IsClean : (s : Text) → IsClean s → clean s ≡ s
unfolding clean select
clean-eq_of_IsClean [] h = refl
clean-eq_of_IsClean (c ∷ s) h = ground (arith, lower_key_char c h.0, clean-eq_of_IsClean s h.1)

trim_left-IsClean : (s : Text) → IsClean s → IsClean (trim_left s)
unfolding trim_left
trim_left-IsClean [] h = tt
trim_left-IsClean (c ∷ s) h = ground (arith, trim_left-IsClean s h.1)

trim_right-IsClean : (s : Text) → IsClean s → IsClean (trim_right s)
unfolding trim_right
trim_right-IsClean [] h = tt
trim_right-IsClean (c ∷ s) h = ground (arith, trim_right-IsClean s h.1)

pub trim-IsClean : (s : Text) → IsClean s → IsClean (trim s)
unfolding trim
trim-IsClean s h = trim_right-IsClean (trim_left s) (trim_left-IsClean s h)

trim_left-starts : (s : Text) → starts_with_dash (trim_left s) ≡ false
unfolding trim_left
trim_left-starts [] = refl
trim_left-starts (c ∷ s) = ground (arith, trim_left-starts s)

trim_right-starts :
    (s : Text) → starts_with_dash s ≡ false → starts_with_dash (trim_right s) ≡ false
unfolding trim_right
trim_right-starts [] h = refl
trim_right-starts (c ∷ s) h = ground arith

trim_right-ends : (s : Text) → ends_with_dash (trim_right s) ≡ false
unfolding trim_right
trim_right-ends [] = refl
trim_right-ends (c ∷ s) = ground (arith, trim_right-ends s)

trim_left-eq : (s : Text) → starts_with_dash s ≡ false → trim_left s ≡ s
unfolding trim_left
trim_left-eq [] h = refl
trim_left-eq (c ∷ s) h = ground arith

trim_right-eq : (s : Text) → ends_with_dash s ≡ false → trim_right s ≡ s
unfolding trim_right
trim_right-eq [] h = refl
trim_right-eq (c ∷ []) h = ground arith
trim_right-eq (c ∷ d ∷ s) h = ground (arith, trim_right-eq (d ∷ s) h)

-- Trimming leaves a key.
pub trim-IsKey : (s : Text) → IsClean s → IsKey (trim s)
unfolding trim
trim-IsKey s h = record {
  clean = trim-IsClean s h;
  no_leading_dash = trim_right-starts (trim_left s) (trim_left-starts s);
  no_trailing_dash = trim_right-ends (trim_left s);
}

pub trim-eq_of_IsKey : (s : Text) → IsKey s → trim s ≡ s
unfolding trim
trim-eq_of_IsKey s k =
    ap trim_right (trim_left-eq s k.no_leading_dash) ∙ trim_right-eq s k.no_trailing_dash

length-trim_left-le : (s : Text) → length (trim_left s) ≤ length s
unfolding trim_left
length-trim_left-le [] = omega arith
length-trim_left-le (c ∷ s) = ground (arith, length-trim_left-le s)

length-trim_right-le : (s : Text) → length (trim_right s) ≤ length s
unfolding trim_right
length-trim_right-le [] = omega arith
length-trim_right-le (c ∷ s) = ground (arith, length-trim_right-le s)

pub length-trim-le : (s : Text) → length (trim s) ≤ length s
unfolding trim
length-trim-le s = omega (arith, length-trim_right-le (trim_left s), length-trim_left-le s)

pub truncate-IsKey : (s : Text) (n : ℕ) → IsKey s → IsKey (truncate s n)
unfolding truncate
truncate-IsKey s n k = elim (Bool-cases (ltb n (length s))) [
  | inl cut ↦ rw cut (trim-IsKey (take n s) (All-take _ n s k.clean))
  | inr short ↦ rw short k
]

pub length-truncate-le : (s : Text) (n : ℕ) → length (truncate s n) ≤ n
unfolding truncate
length-truncate-le s n = ground (arith, length-trim-le (take n s), length-take n s)

trim-ne : (s : Text) → starts_with_dash s ≡ false → s ≢ [] → trim s ≢ []
unfolding trim trim_left trim_right
trim-ne [] h n = n
trim-ne (c ∷ s) h n = ground arith

-- A key that is not empty is cut to one that is not.
pub truncate-ne : (s : Text) (n : ℕ) → IsKey s → s ≢ [] → truncate s (suc n) ≢ []
unfolding truncate
truncate-ne [] n k e = absurd (e refl)
truncate-ne (c ∷ s) n k e = ground (arith, trim-ne (c ∷ take n s) k.no_leading_dash)
