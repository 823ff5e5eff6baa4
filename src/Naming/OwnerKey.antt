-- ===== src/Naming/OwnerKey.antt =====
-- The owner keys that the API server and the operator derive from an identity
-- (internal/kube/owner.go, internal/auth/jwt.go, internal/controller/naming.go).
use dploy.Prelude.{◌≤◌, ◌≡◌, ap, ◌∙◌, ltb, length, All-take, Bool-cases, inl, inr}
use dploy.Prelude.Text.{Text}
use dploy.Naming.Chars.{clean, trim, truncate}
use dploy.Naming.Keys.{sanitize, max_owner_len, sanitize_owner, sanitize_username}
use dploy.Naming.Trim.{
  IsKey, clean-IsClean, clean-eq_of_IsClean, trim-IsClean, trim-IsKey, trim-eq_of_IsKey,
  length-truncate-le,
}

-- The operator's key of any text holds only a-z, 0-9 and "-", and neither starts nor ends with "-".
pub sanitize-IsKey : (s : Text) → IsKey (sanitize s)
unfolding sanitize
sanitize-IsKey s = trim-IsKey (clean s) (clean-IsClean s)

pub sanitize-eq_of_IsKey : (s : Text) → IsKey s → sanitize s ≡ s
unfolding sanitize
sanitize-eq_of_IsKey s k = ap trim (clean-eq_of_IsClean s k.clean) ∙ trim-eq_of_IsKey s k

pub sanitize_owner-IsKey : (s : Text) → IsKey (sanitize_owner s)
unfolding sanitize_owner
sanitize_owner-IsKey s = elim (Bool-cases (ltb max_owner_len (length (trim (clean s))))) [
  | inl long ↦
      rw long (trim-IsKey _ (All-take _ max_owner_len _ (trim-IsClean (clean s) (clean-IsClean s))))
  | inr short ↦ rw short (trim-IsKey (clean s) (clean-IsClean s))
]

pub length-sanitize_owner-le : (s : Text) → length (sanitize_owner s) ≤ max_owner_len
unfolding sanitize_owner truncate
length-sanitize_owner-le s = length-truncate-le (trim (clean s)) max_owner_len

-- The owner key the API server writes into a claim is the key the operator's sanitize gives for
-- it, so the labels that the two set agree; and it fits a label value of 63 bytes.
pub sanitize-sanitize_owner :
    (s : Text)
    → (sanitize (sanitize_owner s) ≡ sanitize_owner s) × (length (sanitize_owner s) ≤ max_owner_len)
sanitize-sanitize_owner s =
    (sanitize-eq_of_IsKey (sanitize_owner s) (sanitize_owner-IsKey s), length-sanitize_owner-le s)

-- Resolving the owner from the user name that authentication already cleaned gives the key of the
-- raw claim value.
sanitize_owner-sanitize_username :
    (s : Text) → sanitize_owner (sanitize_username s) ≡ sanitize_owner s
unfolding sanitize_owner sanitize_username
sanitize_owner-sanitize_username s = rw (clean-eq_of_IsClean (clean s) (clean-IsClean s))
