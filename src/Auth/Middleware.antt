-- ===== src/Auth/Middleware.antt =====
-- internal/auth/middleware.go and Validate of jwt.go.
use dploy.Prelude.{Option, none, some, [], is_empty, if◌then◌else◌, length}
use dploy.Prelude.Text.{Text, codes, text_eq, has_prefix, drop}
use dploy.V1alpha1.Common.{text, error_text}
use dploy.Naming.{sanitize_username}
use dploy.KubeClient.{ClaimValue}
use dploy.Handlers.{Request, H, GoError, problem, send}

-- strings.TrimPrefix.
unfoldable pub trim_prefix : Text → Text → Text
trim_prefix s prefix = if has_prefix s prefix then drop (length prefix) s else s

-- A claim's text, "" where it is something else.
unfoldable pub string_of : ClaimValue → Text
string_of (ClaimValue.string t) = t
string_of _ = []

-- IDTokenVerifier.Verify with the decoding of the claims: none where either fails.
module _ (verify : Text → Option (Text → ClaimValue)) where
  unfoldable pub validate : Text → Text → Option (Text × (Text → ClaimValue))
  validate username_claim token = elim (verify token) [
    | none ↦ none
    | some claims ↦
        let raw = string_of (claims username_claim) in
        if is_empty raw then none else some (sanitize_username raw, claims)
  ]

  -- The header's token, or the answer where there is none, before the handler.
  unfoldable pub middleware : Text → Text → Request → (Request → H GoError) → H GoError
  middleware username_claim auth_header req next =
      let token = trim_prefix auth_header (codes "Bearer ") in
      let checked : H GoError = elim (validate username_claim token) [
        | none ↦ send 401 (problem error_text)
        | some (username, claims) ↦
            next (record req { username = some username; claims = some claims })
      ] in
      if is_empty auth_header
      then send 401 (problem (text (codes "Missing Authorization header")))
      else if text_eq token auth_header
      then send 401 (problem (text (codes "Invalid Authorization header format")))
      else checked
