-- ===== src/Naming/ClaimName.antt =====
-- The name of a claim (ClaimName of internal/kube/client.go), by which the API server finds the
-- claim of an owner and a template.
use mathlib.Core.List.{append_assoc}
use dploy.Prelude.{
  ℕ, ◌≤◌, ◌≡◌, ◌≢◌, sym, ◌∙◌, ◌+◌, [], ◌∷◌, ◌++◌, ltb, if◌then◌else◌, length, take, All, arith,
  length-append,
}
use dploy.Prelude.Text.{Text, codes}
use dploy.Naming.Chars.{trim}
use dploy.Naming.Keys.{claim_name, max_claim_name_len}

-- The text holds no dash.
abbrev pub IsDashFree : Text → Type 0
IsDashFree = All (λ c. c ≢ b'-')

-- Where the owner and the template leave room for the dash, the name is not cut.
abbrev pub FitsName : Text → Text → Type 0
FitsName owner template = length owner + length template + 1 ≤ max_claim_name_len

if_short : (s : Text) (n : ℕ) → length s ≤ n → (if ltb n (length s) then trim (take n s) else s) ≡ s
if_short s n h = ground arith

claim_name-eq : (o t : Text) → FitsName o t → claim_name o t ≡ o ++ (codes "-" ++ t)
unfolding claim_name
claim_name-eq o t h =
    if_short (o ++ (codes "-" ++ t)) max_claim_name_len
      (omega (arith, length-append o (codes "-" ++ t)))

first_dash :
    (o p t u : Text)
    → IsDashFree o
    → IsDashFree p
    → o ++ (codes "-" ++ t) ≡ p ++ (codes "-" ++ u)
    → (o ≡ p) × (t ≡ u)
first_dash [] [] t u ho hp e = ground arith
first_dash [] (d ∷ p) t u ho hp e = ground arith
first_dash (c ∷ o) [] t u ho hp e = ground arith
first_dash (c ∷ o) (d ∷ p) t u ho hp e = ground (arith, first_dash o p t u ho.1 hp.1)

-- Claims of owners without dashes have different names unless owner and template agree, where the
-- names fit the limit.
pub claim_name-injective :
    (o p t u : Text)
    → IsDashFree o
    → IsDashFree p
    → FitsName o t
    → FitsName p u
    → claim_name o t ≡ claim_name p u
    → (o ≡ p) × (t ≡ u)
claim_name-injective o p t u ho hp ft fu e =
    first_dash o p t u ho hp (sym (claim_name-eq o t ft) ∙ e ∙ claim_name-eq p u fu)

-- Where an owner holds a dash, the part behind it may as well begin the template: the claim of owner
-- "o-x" for template "t" has the name of the claim of owner "o" for template "x-t".
pub claim_name_collides :
    (o x t : Text) → claim_name (o ++ (codes "-" ++ x)) t ≡ claim_name o (x ++ (codes "-" ++ t))
unfolding claim_name
claim_name_collides o x t = rw (append_assoc o (codes "-" ++ x) (codes "-" ++ t))
