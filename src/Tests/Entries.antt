-- ===== src/Tests/Entries.antt =====
-- The theorems on the program entries at a concrete environment and a concrete request.
use dploy.Prelude.{ℕ, ◌≡◌, refl, ◌⊎◌, Bool, true, false, Option, none, some, [], ◌∷◌, if◌then◌else◌}
use dploy.Prelude.Int.{ℤ}
use dploy.Prelude.Text.{Text, codes, text_eq, has_prefix}
use dploy.Configuration.{
  Config, read_config, load, get_env, get_env_as_int, get_env_as_list, get_env_as_bool, fields,
  fields_from, has_field, with_openid,
}
use dploy.Cluster.{Log, Result, err, not_found}
use dploy.Handlers.{Request, Response, Outcome, H, GoError}
use dploy.Auth.{
  Endpoint, OidcHandler, TokenVerifier, new_oidc_handler, new_provider_with_retry, discover,
  handler_endpoint, handler_verifier, split_horizon, secure_cookie,
}
use dploy.Logger.{init, fatal_exits}
use dploy.Program.{
  Client, JwtValidator, new_jwt_validator, new_client, load_rest_config, start, listen, fatal,
}
use dploy.Program.Listens.{Sound, start-Sound}
use dploy.Routes.{Method}
use dploy.Routes.Closed.{IsOpen, found, served, app_denies}
use dploy.Tests.Fixtures.{request, server}

-- An environment with the two variables that are required.
abbrev sparse : Text → Text
sparse key =
    if text_eq key (codes "JWKS_URL")
    then codes "https://idp.example/keys"
    else if text_eq key (codes "JWT_ISSUER")
    then codes "https://idp.example"
    else []

abbrev no_number : Text → Option ℤ
no_number t = none

abbrev no_bool : Text → Option Bool
no_bool t = none

abbrev sparse_config : Config
sparse_config = read_config sparse no_number no_bool

abbrev endpoint : Endpoint
endpoint = record {
  auth_url = codes "https://idp.example/a";
  token_url = codes "https://idp.example/t";
}

abbrev sparse_client : Client ℕ
sparse_client = record { c = 7; namespace = codes "dploy-system"; config = sparse_config }

abbrev sparse_validator : JwtValidator
sparse_validator = record {
  jwks_url = codes "https://idp.example/keys";
  issuer = codes "https://idp.example";
  client_id = codes "dploy";
  skip_client_id_check = false;
  username_claim = codes "name";
}

abbrev sparse_login : OidcHandler
sparse_login = record {
  client_id = codes "dploy";
  client_secret = codes "dploy-secret";
  redirect_url = codes "http://localhost:8080/auth/callback";
  endpoint = endpoint;
  scopes = codes "openid" ∷ codes "profile" ∷ codes "email" ∷ [];
  verifier = TokenVerifier.discovered_keys (codes "dploy");
  secure_cookie = false;
}

start-Sound_example : Sound sparse_client sparse_validator sparse_login
unfolding start listen load get_env get_env_as_int get_env_as_list get_env_as_bool fields
    fields_from has_field with_openid text_eq init fatal fatal_exits new_client load_rest_config
    new_jwt_validator new_oidc_handler new_provider_with_retry discover handler_endpoint
    handler_verifier split_horizon secure_cookie has_prefix
start-Sound_example =
    start-Sound {R = ℕ} none (some 1) true (λ r. some 7) sparse no_number no_bool (λ u. none)
      (λ i. some endpoint) (λ a. false) sparse_client sparse_validator sparse_login
      (codes "0.0.0.0:8080") refl

-- A request of nobody's for /api/me.
abbrev stranger : Request
stranger = record {
  username = none;
  claims = none;
  env = [];
  query = λ t. [];
  query_bool = λ t b. b;
}

abbrev exact : Method → Text → Method → Text → Bool
exact m p m' path = text_eq p path

abbrev no_delete : H (Result (Unit {0}))
no_delete x = (Outcome.returns (err not_found), x)

abbrev nothing : H GoError
nothing x = (Outcome.returns none, x)

abbrev starts : Text → Text → Bool
starts p t = has_prefix t p

abbrev answered : Response × Log
answered =
    served (server request [] []) sparse_config (λ t. none) no_delete nothing (λ t r. nothing) exact
      starts (λ p t. false) Method.post (codes "/api/me") [] stranger []

app_denies_example :
    IsOpen (found exact starts (λ p t. false) Method.post (codes "/api/me"))
    ⊎ ((answered.0.status ≡ 401) × (answered.1 ≡ []))
unfolding has_prefix
app_denies_example =
    app_denies (server request [] []) sparse_config (λ t. none) no_delete nothing (λ t r. nothing)
      exact starts (λ p t. false) Method.post (codes "/api/me") [] stranger [] refl refl
