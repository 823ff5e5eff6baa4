-- ===== src/Program/Listens.antt =====
-- What holds of an API server that listens.
use dploy.Prelude.{
  ℕ, ◌≡◌, refl, subst, List, [], sym, ap, ◌∙◌, Bool, true, false, ◌⊎◌, inl, inr, Option, some,
  is_empty, arith, Bool-cases, Option-cases, ◌++◌,
}
use dploy.Prelude.Int.{ℤ}
use dploy.Prelude.Text.{Text, codes, text_eq_refl}
use dploy.Configuration.{
  Config, loaded, required, load, get_env, read_config, Loaded, has_field, with_openid,
}
use dploy.Auth.{Endpoint, OidcHandler, new_oidc_handler}
use dploy.Logger.{init, fatal_exits}
use dploy.Program.Api.{
  Startup, Client, JwtValidator, fatal, listen, load_rest_config, new_client, new_jwt_validator,
  start,
}

with_openid-has_field :
    (scopes : List Text) → has_field (codes "openid") (with_openid scopes) ≡ true
unfolding with_openid has_field
with_openid-has_field scopes = elim (Bool-cases (has_field (codes "openid") scopes)) [
  | inl there ↦ ground arith
  | inr added ↦ ground (arith, text_eq_refl (codes "openid"))
]

Loaded-cases :
    (l : Loaded)
    → ((variable : Text) × (l ≡ required variable)) ⊎ ((cfg : Config) × (l ≡ loaded cfg))
Loaded-cases (required variable) = inl (variable, refl)
Loaded-cases (loaded cfg) = inr (cfg, refl)

-- A configuration to verify tokens by: keys, an issuer and an audience, and the scope of an ID token.
abbrev Complete : Config → Type 0
Complete cfg =
    (is_empty cfg.jwks_url ≡ false)
    × (is_empty cfg.jwt_issuer ≡ false)
    × (is_empty cfg.jwt_audience ≡ false)
    × (has_field (codes "openid") cfg.oidc_scopes ≡ true)

module _ (env : Text → Text) (atoi : Text → Option ℤ) (parse_bool : Text → Option Bool) where
  get_env-is_empty :
      (key default : Text)
      → is_empty default ≡ false
      → is_empty (get_env env atoi parse_bool key default) ≡ false
  unfolding get_env
  get_env-is_empty key default h = elim (Bool-cases (is_empty (env key))) [
    | inl unset ↦ ground arith
    | inr set ↦ ground arith
  ]

  load-Complete : (cfg : Config) → load env atoi parse_bool ≡ loaded cfg → Complete cfg
  unfolding load
  load-Complete cfg e =
      elim (Bool-cases (is_empty (get_env env atoi parse_bool (codes "JWKS_URL") []))) [
        | inl no_keys ↦ ground arith
        | inr keys ↦
            elim (Bool-cases (is_empty (get_env env atoi parse_bool (codes "JWT_ISSUER") []))) [
              | inl no_issuer ↦ ground arith
              | inr issuer ↦
                  let same : read_config env atoi parse_bool ≡ cfg = ground arith in
                  subst Complete same (
                    keys,
                    issuer,
                    get_env-is_empty (codes "JWT_AUDIENCE") (codes "dploy") refl,
                    with_openid-has_field _,
                  )
            ]
      ]

-- Keys of a URL, an issuer and an audience, which is checked.
abbrev pub Verifies : JwtValidator → Type 0
Verifies v =
    (is_empty v.jwks_url ≡ false)
    × (is_empty v.issuer ≡ false)
    × (is_empty v.client_id ≡ false)
    × (v.skip_client_id_check ≡ false)

-- The validator checks keys, issuer and audience, and is of the client's configuration; the login asks
-- for an ID token.
abbrev pub Sound : {A : Type 0} → Client A → JwtValidator → OidcHandler → Type 0
Sound client validator oidc =
    Verifies validator
    × (validator.issuer ≡ client.config.jwt_issuer)
    × (client.namespace ≡ client.config.namespace)
    × (has_field (codes "openid") oidc.scopes ≡ true)

module _ {R A : Type 0} (in_cluster kubeconfig : Option R) (registers : Bool) (new : R → Option A)
    (env : Text → Text) (atoi : Text → Option ℤ) (parse_bool : Text → Option Bool)
    (parse : Text → Option (Text × Text)) (discovered : ℕ → Option Endpoint)
    (listen_fails : Text → Bool) where
  abbrev started : Startup A
  started =
      start in_cluster kubeconfig registers new env atoi parse_bool parse discovered listen_fails

  abbrev client_of : Config → Option (Client A)
  client_of = new_client in_cluster kubeconfig registers new

  abbrev validator_of : Config → JwtValidator
  validator_of cfg =
      new_jwt_validator cfg.jwks_url cfg.jwt_issuer cfg.jwt_audience cfg.jwt_username_claim

  abbrev address : Config → Text
  address cfg = cfg.server_host ++ (codes ":" ++ cfg.server_port)

  -- What new_client builds is of its configuration.
  new_client-config :
      (cfg : Config) (cl : Client A)
      → client_of cfg ≡ some cl
      → (cl.config ≡ cfg) × (cl.namespace ≡ cfg.namespace)
  unfolding new_client
  new_client-config cfg cl e = elim (Option-cases (load_rest_config in_cluster kubeconfig)) [
    | inl no_rest ↦ ground arith
    | inr (rest, reached) ↦ elim (Bool-cases registers) [
      | inr unknown ↦ ground arith
      | inl known ↦ elim (Option-cases (new rest)) [
        | inl refused ↦ ground arith
        | inr (c, built) ↦ (ground arith, ground arith)
      ]
    ]
  ]

  new_oidc_handler-scopes :
      (cfg : Config) (h : OidcHandler)
      → new_oidc_handler parse cfg discovered ≡ some h
      → h.scopes ≡ cfg.oidc_scopes
  unfolding new_oidc_handler
  new_oidc_handler-scopes cfg h e = ground arith

  built-Sound :
      (cfg : Config) (cl : Client A) (h : OidcHandler)
      → Complete cfg
      → client_of cfg ≡ some cl
      → new_oidc_handler parse cfg discovered ≡ some h
      → Sound cl (validator_of cfg) h
  unfolding new_jwt_validator
  built-Sound cfg cl h (keys, issuer, audience, openid) connected found =
      let (same, namespace) = new_client-config cfg cl connected in
      let scopes = new_oidc_handler-scopes cfg h found in
      (
        (keys, issuer, audience, audience),
        sym (ap (λ c. c.jwt_issuer) same),
        namespace ∙ sym (ap (λ c. c.namespace) same),
        subst (λ ss. has_field (codes "openid") ss ≡ true) (sym scopes) openid,
      )

  -- An API server that comes to listen verifies tokens by keys of a URL, an issuer and an audience, none of
  -- which is empty, whatever the environment is; issuer and namespace are those of one configuration, and
  -- the scopes of the login contain openid.
  pub start-Sound :
      (client : Client A) (validator : JwtValidator) (oidc : OidcHandler) (addr : Text)
      → started ≡ Startup.listening client validator oidc addr
      → Sound client validator oidc
  unfolding start listen fatal init fatal_exits
  start-Sound client validator oidc addr e = elim (Loaded-cases (load env atoi parse_bool)) [
    | inl (variable, lacking) ↦ ground arith
    | inr (cfg, configured) ↦ elim (Option-cases (client_of cfg)) [
      | inl no_client ↦ ground arith
      | inr (cl, connected) ↦ elim (Option-cases (new_oidc_handler parse cfg discovered)) [
        | inl no_provider ↦ ground arith
        | inr (h, found) ↦ elim (Bool-cases (listen_fails (address cfg))) [
          | inl refused ↦ ground arith
          | inr open_port ↦
              let v : validator_of cfg ≡ validator = ground arith in
              let c : cl ≡ client = ground arith in
              let o : h ≡ oidc = ground arith in
              let complete = load-Complete env atoi parse_bool cfg configured in
              subst (Sound client validator) o (
                subst (λ w. Sound client w h) v
                  (subst (λ k. Sound k (validator_of cfg) h) c
                    (built-Sound cfg cl h complete connected found)))
        ]
      ]
    ]
  ]
