-- ===== src/Naming/Keys.antt =====
-- The keys and names that are built from an owner and a template.
use dploy.Prelude.{ℕ, List, [], ◌∷◌, ◌++◌, ltb, if◌then◌else◌, length, take, is_empty}
use dploy.Prelude.Text.{Text, codes}
use dploy.Naming.Chars.{clean, trim, truncate}

abbrev pub max_segment : ℕ
max_segment = 20

unfoldable pub sanitize : Text → Text
sanitize s = trim (clean s)

unfoldable pub workload_namespace : Text → Text → Text → Text
workload_namespace owner template uid =
    let o = sanitize owner in
    let o' = if is_empty o then codes "pool" else o in
    truncate o' max_segment
    ++ (codes "-" ++ (truncate (sanitize template) max_segment ++ (codes "-" ++ uid)))

unfoldable pub default_host : Text → Text → Text → Text
default_host template_name uid base_domain =
    let t = sanitize template_name in
    (if is_empty t then codes "env" else t) ++ (codes "-" ++ (uid ++ (codes "." ++ base_domain)))

unfoldable pub first_non_empty : List Text → Text
first_non_empty [] = []
first_non_empty (v ∷ vals) = if is_empty v then first_non_empty vals else v

abbrev pub max_owner_len : ℕ
max_owner_len = 63

-- kube.sanitizeOwner.
unfoldable pub sanitize_owner : Text → Text
sanitize_owner s =
    let out = trim (clean s) in
    if ltb max_owner_len (length out) then trim (take max_owner_len out) else out

-- auth.SanitizeUsername, which trims nothing.
unfoldable pub sanitize_username : Text → Text
sanitize_username s = clean s

abbrev pub max_claim_name_len : ℕ
max_claim_name_len = 253

-- kube.ClaimName.
unfoldable pub claim_name : Text → Text → Text
claim_name owner template =
    let name = owner ++ (codes "-" ++ template) in
    if ltb max_claim_name_len (length name) then trim (take max_claim_name_len name) else name
