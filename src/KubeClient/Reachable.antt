-- ===== src/KubeClient/Reachable.antt =====
-- A requester can list what it starts: the owner of a template is among its identities.
use dploy.Prelude.{
  ◌≡◌, refl, true, false, ◌⊎◌, inl, inr, List, [], ◌∷◌, ◌++◌, is_empty, arith, Bool-cases,
}
use dploy.Prelude.Text.{Text, text_eq_iff}
use dploy.Naming.{sanitize_owner}
use dploy.KubeClient.Owners.{
  ClaimValue, claim_values, first_owner, resolve_owner, has_text, add_identity, add_identities,
  add_claims, identities,
}

has_text-append :
    (o x : Text) (out : List Text)
    → (has_text o out ≡ true) ⊎ (x ≡ o)
    → has_text o (out ++ x ∷ []) ≡ true
unfolding has_text
has_text-append o x [] h = ground (arith, text_eq_iff x o)
has_text-append o x (y ∷ out) h = ground (arith, has_text-append o x out)

add_identity_has :
    (o s : Text) (out : List Text)
    → is_empty o ≡ false
    → (has_text o out ≡ true) ⊎ (sanitize_owner s ≡ o)
    → has_text o (add_identity out s) ≡ true
unfolding add_identity
add_identity_has o s out n h = ground (arith, has_text-append o (sanitize_owner s) out)

add_identities_has :
    (o : Text) (vs out : List Text)
    → is_empty o ≡ false
    → (has_text o out ≡ true) ⊎ (first_owner vs ≡ (o, true))
    → has_text o (add_identities out vs) ≡ true
unfolding add_identities first_owner
add_identities_has o [] out n h = ground arith
add_identities_has o (v ∷ vs) out n h =
    ground (arith, add_identity_has o v out n, add_identities_has o vs (add_identity out v) n)

module _ (claims : Text → ClaimValue) (o : Text) (n : is_empty o ≡ false) where
  add_claims_has :
      (c : Text) (cs out : List Text)
      → is_empty c ≡ false
      → (has_text o out ≡ true)
        ⊎ ((has_text c cs ≡ true) × (first_owner (claim_values (claims c)) ≡ (o, true)))
      → has_text o (add_claims claims out cs) ≡ true
  unfolding add_claims has_text
  add_claims_has c [] out e h = ground arith
  add_claims_has c (d ∷ cs) out e h =
      let next = add_identities out (claim_values (claims d)) in
      ground (
        arith,
        text_eq_iff d c,
        add_identities_has o (claim_values (claims d)) out n,
        add_claims_has c cs out e,
        add_claims_has c cs next e,
      )

first_owner-nonempty : (vs : List Text) (o : Text) → first_owner vs ≡ (o, true) → is_empty o ≡ false
unfolding first_owner
first_owner-nonempty [] o h = ground arith
first_owner-nonempty (v ∷ vs) o h = ground (arith, first_owner-nonempty vs o)

resolve_owner-nonempty :
    (claims : Text → ClaimValue) (claim fallback_username o : Text)
    → resolve_owner claims claim fallback_username ≡ (o, true)
    → is_empty o ≡ false
unfolding resolve_owner
resolve_owner-nonempty claims claim fallback_username o h =
    ground (arith, first_owner-nonempty (claim_values (claims claim)) o)

-- The owner key that a requester gets for a template is among the identities under which its claims
-- are listed, where the listing takes in the template's owner claim.
pub identities-resolve_owner :
    (claims : Text → ClaimValue) (claim : Text) (owner_claims : List Text)
    (fallback_username o : Text)
    → resolve_owner claims claim fallback_username ≡ (o, true)
    → (claim ≡ []) ⊎ (has_text claim owner_claims ≡ true)
    → has_text o (identities claims owner_claims fallback_username) ≡ true
unfolding identities resolve_owner
identities-resolve_owner claims claim owner_claims fallback_username o h listed =
    let n = resolve_owner-nonempty claims claim fallback_username o h in
    let own = add_identity [] fallback_username in
    elim (Bool-cases (is_empty claim)) [
      | inl unset ↦
          add_claims_has claims o n (0 ∷ []) owner_claims own refl
            (inl (add_identity_has o fallback_username [] n (inr (ground arith))))
      | inr set ↦
          add_claims_has claims o n claim owner_claims own set (inr (ground arith, ground arith))
    ]
