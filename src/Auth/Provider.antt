-- ===== src/Auth/Provider.antt =====
-- NewOIDCHandler and newProviderWithRetry of internal/auth/oidc.go.
use dploy.Prelude.{
  ℕ, zero, suc, ◌*◌, ◌-◌, Bool, ◌&&◌, not, Option, none, some, List, [], ◌∷◌, ◌++◌, is_empty, ltb,
  if◌then◌else◌, length,
}
use dploy.Prelude.Text.{Text, codes, text_eq, has_prefix, drop}
use dploy.Configuration.{Config}

-- oauth2.Endpoint.
pub record Endpoint : Type 0 where
  pub auth_url : Text
  pub token_url : Text

-- The provider that was discovered, or none; the delays slept between attempts, the latest first; and
-- the attempts made.
pub record Discovery {ℓ} (A : Type ℓ) : Type ℓ where
  pub provider : Option A
  pub delays : List ℕ
  pub attempts : ℕ

abbrev pub millisecond : ℕ
millisecond = 1000000

abbrev pub discovery_attempts : ℕ
discovery_attempts = 5

unfoldable pub next_delay : ℕ → ℕ
next_delay delay = if ltb delay (4000 * millisecond) then delay * 2 else delay

-- The loop, on the attempts left behind this one: `i` is the number of this attempt.
unfoldable pub discover : {A : Type 0} → (ℕ → Option A) → ℕ → ℕ → ℕ → List ℕ → Discovery A
discover new_provider zero i delay slept = record {
  provider = new_provider i;
  delays = slept;
  attempts = i;
}
discover new_provider (suc left) i delay slept =
    let rest = discover new_provider left (suc i) (next_delay delay) (delay ∷ slept) in
    elim (new_provider i) [
      | some p ↦ record { provider = some p; delays = slept; attempts = i }
      | none ↦ rest
    ]

-- oidc.NewProvider may answer each attempt otherwise.
unfoldable pub new_provider_with_retry : {A : Type 0} → (ℕ → Option A) → Discovery A
new_provider_with_retry new_provider =
    discover new_provider (discovery_attempts - 1) 1 (500 * millisecond) []

-- strings.Replace of the first occurrence, where the text begins with it.
unfoldable pub replace_prefix : Text → Text → Text → Text
replace_prefix s old new = new ++ drop (length old) s

unfoldable pub split_horizon : Config → Bool
split_horizon cfg =
    not (is_empty cfg.oidc_public_issuer) && not (text_eq cfg.oidc_public_issuer cfg.oidc_issuer)

-- The issuer that tokens are expected to carry.
unfoldable pub expected_issuer : Config → Text
expected_issuer cfg = if split_horizon cfg then cfg.oidc_public_issuer else cfg.oidc_issuer

-- The browser's endpoint becomes public, the back end's internal.
unfoldable pub rebase : Text → Text → Endpoint → Endpoint
rebase internal_base public_base e = record {
  auth_url =
      if has_prefix e.auth_url public_base
      then e.auth_url
      else if has_prefix e.auth_url internal_base
      then replace_prefix e.auth_url internal_base public_base
      else e.auth_url;
  token_url =
      if has_prefix e.token_url public_base
      then replace_prefix e.token_url public_base internal_base
      else e.token_url;
}

-- url.Parse, as scheme and host.
unfoldable pub extract_base_url : (Text → Option (Text × Text)) → Text → Text
extract_base_url parse raw = elim (parse raw) [
  | none ↦ raw
  | some (scheme, host) ↦ scheme ++ codes "://" ++ host
]

-- Whether cookies are sent over HTTPS only.
unfoldable pub secure_cookie : Config → Bool
secure_cookie cfg = not (has_prefix cfg.oidc_redirect_url (codes "http://"))

-- The verifier of ID tokens for a client: with the discovered keys, or with the keys of a URL and an
-- issuer that tokens must carry.
pub data TokenVerifier : Type 0 where
  discovered_keys : Text → TokenVerifier
  keys_at : Text → Text → Text → TokenVerifier

pub record OidcHandler : Type 0 where
  pub client_id : Text
  pub client_secret : Text
  pub redirect_url : Text
  pub endpoint : Endpoint
  pub scopes : List Text
  pub verifier : TokenVerifier
  pub secure_cookie : Bool

-- url.Parse, and the endpoint that each attempt at the discovery finds.
module _ (parse : Text → Option (Text × Text)) (cfg : Config) where
  unfoldable pub handler_endpoint : Endpoint → Endpoint
  handler_endpoint e =
      if split_horizon cfg
      then rebase (extract_base_url parse cfg.oidc_issuer)
          (extract_base_url parse cfg.oidc_public_issuer) e
      else e

  unfoldable pub handler_verifier : TokenVerifier
  handler_verifier =
      if split_horizon cfg && not (is_empty cfg.jwks_url)
      then TokenVerifier.keys_at (expected_issuer cfg) cfg.jwks_url cfg.oidc_client_id
      else TokenVerifier.discovered_keys cfg.oidc_client_id

  unfoldable pub new_oidc_handler : (ℕ → Option Endpoint) → Option OidcHandler
  new_oidc_handler discovered = elim (new_provider_with_retry discovered).provider [
    | none ↦ none
    | some e ↦ some (record {
      client_id = cfg.oidc_client_id;
      client_secret = cfg.oidc_client_secret;
      redirect_url = cfg.oidc_redirect_url;
      endpoint = handler_endpoint e;
      scopes = cfg.oidc_scopes;
      verifier = handler_verifier;
      secure_cookie = secure_cookie cfg;
    })
  ]
