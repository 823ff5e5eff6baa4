-- ===== src/Configuration.antt =====
-- internal/config/config.go: the API server's configuration from environment variables. The
-- environment is a function that is "" where a variable is not set.
use dploy.Prelude.{
  ℕ, ◌==◌, Bool, true, false, ◌&&◌, ◌||◌, not, Option, none, some, List, [], ◌∷◌, ◌++◌, is_empty,
  if◌then◌else◌,
}
use dploy.Prelude.Int.{ℤ, pos}
use dploy.Prelude.Text.{Text, codes, text_eq}

pub record Config : Type 0 where
  pub jwks_url : Text
  pub jwt_issuer : Text
  pub jwt_audience : Text
  pub jwt_username_claim : Text
  pub oidc_issuer : Text
  pub oidc_public_issuer : Text
  pub oidc_client_id : Text
  pub oidc_client_secret : Text
  pub oidc_redirect_url : Text
  pub oidc_scopes : List Text
  pub namespace : Text
  pub forwarded_claims : List Text
  pub max_environments_per_user : ℤ
  pub default_ttl : ℤ
  pub extend_ttl : ℤ
  pub server_host : Text
  pub server_port : Text
  pub catalog_enabled : Bool
  pub instances_list_enabled : Bool
  pub manager_enabled : Bool
  pub admin_claim : Text
  pub admin_value : Text
  pub debug : Bool

-- A configuration, or the variable without which there is none.
pub data Loaded : Type 0 where
  loaded : Config → Loaded
  required : Text → Loaded

abbrev pub is_separator : ℕ → Bool
is_separator c = (c == b',') || (c == b' ') || (c == 9) || (c == 10)

-- strings.FieldsFunc: `word` is the field that has been begun.
unfoldable pub fields_from : Text → Text → List Text
fields_from word [] = if is_empty word then [] else word ∷ []
fields_from word (c ∷ s) =
    let rest = fields_from (if is_separator c then [] else word ++ c ∷ []) s in
    if is_separator c && not (is_empty word) then word ∷ rest else rest

unfoldable pub fields : Text → List Text
fields s = fields_from [] s

unfoldable pub has_field : Text → List Text → Bool
has_field t [] = false
has_field t (x ∷ xs) = text_eq x t || has_field t xs

-- slices.Contains and the prepended scope.
unfoldable pub with_openid : List Text → List Text
with_openid scopes = if has_field (codes "openid") scopes then scopes else codes "openid" ∷ scopes

-- The environment, strconv.Atoi and strconv.ParseBool.
module _ (env : Text → Text) (atoi : Text → Option ℤ) (parse_bool : Text → Option Bool) where
  unfoldable pub get_env : Text → Text → Text
  get_env key default = if is_empty (env key) then default else env key

  unfoldable pub get_env_as_int : Text → ℤ → ℤ
  get_env_as_int key default =
      if is_empty (env key) then default else elim (atoi (env key)) [ none ↦ default | some n ↦ n ]

  unfoldable pub get_env_as_list : Text → List Text → List Text
  get_env_as_list key default =
      if is_empty (env key)
      then default
      else if is_empty (fields (env key))
      then default
      else fields (env key)

  unfoldable pub get_env_as_bool : Text → Bool → Bool
  get_env_as_bool key default =
      if is_empty (env key)
      then default
      else elim (parse_bool (env key)) [ none ↦ default | some b ↦ b ]

  abbrev pub read_config : Config
  read_config = record {
    jwks_url = get_env (codes "JWKS_URL") [];
    jwt_issuer = get_env (codes "JWT_ISSUER") [];
    jwt_audience = get_env (codes "JWT_AUDIENCE") (codes "dploy");
    jwt_username_claim = get_env (codes "JWT_USERNAME_CLAIM") (codes "name");
    oidc_issuer = get_env (codes "OIDC_ISSUER") (get_env (codes "JWT_ISSUER") []);
    oidc_public_issuer = get_env (codes "OIDC_PUBLIC_ISSUER") (get_env (codes "OIDC_ISSUER") []);
    oidc_client_id = get_env (codes "OIDC_CLIENT_ID") (codes "dploy");
    oidc_client_secret = get_env (codes "OIDC_CLIENT_SECRET") (codes "dploy-secret");
    oidc_redirect_url =
        get_env (codes "OIDC_REDIRECT_URL") (codes "http://localhost:8080/auth/callback");
    oidc_scopes = with_openid (
        get_env_as_list (codes "OIDC_SCOPES")
          (codes "openid" ∷ codes "profile" ∷ codes "email" ∷ []));
    namespace = get_env (codes "DPLOY_NAMESPACE") (codes "dploy-system");
    forwarded_claims = get_env_as_list (codes "FORWARDED_CLAIMS") (
        codes "sub"
        ∷ codes "preferred_username"
        ∷ codes "email"
        ∷ codes "name"
        ∷ codes "groups"
        ∷ []);
    max_environments_per_user = get_env_as_int (codes "MAX_ENVIRONMENTS_PER_USER") (pos 5);
    default_ttl = get_env_as_int (codes "DEFAULT_TTL") (pos 86400);
    extend_ttl = get_env_as_int (codes "EXTEND_TTL") (pos 7200);
    server_host = get_env (codes "SERVER_HOST") (codes "0.0.0.0");
    server_port = get_env (codes "SERVER_PORT") (codes "8080");
    catalog_enabled = get_env_as_bool (codes "CATALOG_ENABLED") true;
    instances_list_enabled = get_env_as_bool (codes "INSTANCES_LIST_ENABLED") true;
    manager_enabled = get_env_as_bool (codes "MANAGER_ENABLED") true;
    admin_claim = get_env (codes "ADMIN_CLAIM") (codes "is_admin");
    admin_value = get_env (codes "ADMIN_VALUE") (codes "true");
    debug = get_env_as_bool (codes "DEBUG") false;
  }

  unfoldable pub load : Loaded
  load =
      if is_empty read_config.jwks_url
      then Loaded.required (codes "JWKS_URL")
      else if is_empty read_config.jwt_issuer
      then Loaded.required (codes "JWT_ISSUER")
      else Loaded.loaded read_config
