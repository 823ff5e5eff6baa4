-- ===== src/KubeClient/Owners.antt =====
-- internal/kube/owner.go: the owner keys of a requester, from the claims of a token.
use dploy.Prelude.{
  Bool, true, false, ◌||◌, not, Option, none, some, List, [], ◌∷◌, ◌++◌, if◌then◌else◌, is_empty,
}
use dploy.Prelude.Text.{Text, codes, text_eq}
use dploy.Naming.{sanitize_owner}

-- A value of a decoded token by its Go type; an element of a `[]any` that is no string is `none`,
-- and a number or other value is the text that strconv or fmt prints of it.
pub data ClaimValue : Type 0 where
  nil : ClaimValue
  string : Text → ClaimValue
  strings : List Text → ClaimValue
  anys : List (Option Text) → ClaimValue
  bool : Bool → ClaimValue
  float printed : Text → ClaimValue

-- The texts among the elements that are not empty.
unfoldable pub string_elements : List (Option Text) → List Text
string_elements [] = []
string_elements (none ∷ es) = string_elements es
string_elements (some s ∷ es) = if is_empty s then string_elements es else s ∷ string_elements es

unfoldable pub claim_values : ClaimValue → List Text
claim_values ClaimValue.nil = []
claim_values (ClaimValue.string t) = if is_empty t then [] else t ∷ []
claim_values (ClaimValue.strings ts) = ts
claim_values (ClaimValue.anys es) = string_elements es
claim_values (ClaimValue.float t) = t ∷ []
claim_values (ClaimValue.bool b) = (if b then codes "true" else codes "false") ∷ []
claim_values (ClaimValue.printed t) = t ∷ []

-- The key of the first value that has one.
unfoldable pub first_owner : List Text → Text × Bool
first_owner [] = ([], false)
first_owner (v ∷ vs) = let o = sanitize_owner v in if is_empty o then first_owner vs else (o, true)

-- The claims are a map: a key that is not there reads as nil.
unfoldable pub resolve_owner : (Text → ClaimValue) → Text → Text → Text × Bool
resolve_owner claims claim fallback_username =
    let o = sanitize_owner fallback_username in
    if is_empty claim then (o, not (is_empty o)) else first_owner (claim_values (claims claim))

unfoldable pub has_text : Text → List Text → Bool
has_text o [] = false
has_text o (x ∷ xs) = text_eq x o || has_text o xs

unfoldable pub add_identity : List Text → Text → List Text
add_identity out s =
    let o = sanitize_owner s in
    if is_empty o then out else if has_text o out then out else out ++ o ∷ []

unfoldable pub add_identities : List Text → List Text → List Text
add_identities out [] = out
add_identities out (v ∷ vs) = add_identities (add_identity out v) vs

unfoldable pub add_claims : (Text → ClaimValue) → List Text → List Text → List Text
add_claims claims out [] = out
add_claims claims out (c ∷ cs) =
    add_claims claims (if is_empty c then out else add_identities out (claim_values (claims c))) cs

unfoldable pub identities : (Text → ClaimValue) → List Text → Text → List Text
identities claims owner_claims fallback_username =
    add_claims claims (add_identity [] fallback_username) owner_claims
