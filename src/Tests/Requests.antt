-- ===== src/Tests/Requests.antt =====
-- The theorems on the API server at concrete requests.
use dploy.Prelude.{
  ◌*◌, ◌≤◌, ◌<◌, ltb, ℕ, ◌⊎◌, ◌≡◌, refl, true, false, Option, none, some, [], ◌∷◌, ◌++◌, map,
  length, select, if◌then◌else◌,
}
use dploy.Prelude.Int.{pos}
use dploy.Prelude.Text.{Text, codes, text_eq}
use dploy.Naming.{
  sanitize_owner, trim, trim_right, trim_left, clean, is_key_char, to_dash, to_lower,
}
use dploy.KubeClient.{ClaimValue, resolve_owner}
use dploy.Sorting.{sort_by}
use dploy.Configuration.{Config}
use dploy.Cluster.{Kube, Result, err, not_found}
use dploy.Handlers.{
  Request, Outcome, H, serve, get_status, extend_ttl, delete_environment, admin_instances_route,
  admin_templates_route, claims_map, build_params, is_admin, instance_row, instance_before,
  instances,
}
use dploy.Handlers.Forwarded.{CarriesWanted, build_params-CarriesWanted}
use dploy.Handlers.Absent.{absent_claim_fails}
use dploy.Handlers.Gate.{admin_routes_refuse, false_claim_admits}
use dploy.Auth.{Url, cookie_return, path_or_root, cleared_flow}
use dploy.Auth.{millisecond, new_provider_with_retry}
use dploy.Auth.Patience.{total, new_provider_with_retry_lem}
use dploy.Auth.Session.{IsOurs, reply, callback-IsOurs}
use dploy.Routes.{Route}
use dploy.Routes.Admission.{Refused, Admitted, api_admits}
use dploy.Routes.Created.{CreatesOwn, api_creates_own}
use dploy.Tests.Fixtures.{lab, request, two_warm, server}

abbrev defaults : Config
defaults = record {
  jwks_url = codes "https://idp.example/keys";
  jwt_issuer = codes "https://idp.example";
  jwt_audience = codes "dploy";
  jwt_username_claim = codes "name";
  oidc_issuer = codes "https://idp.example";
  oidc_public_issuer = codes "https://idp.example";
  oidc_client_id = codes "dploy";
  oidc_client_secret = codes "secret";
  oidc_redirect_url = codes "http://localhost:8080/auth/callback";
  oidc_scopes = codes "openid" ∷ [];
  namespace = codes "ctf";
  forwarded_claims = codes "email" ∷ codes "team" ∷ [];
  max_environments_per_user = pos 5;
  default_ttl = pos 86400;
  extend_ttl = pos 7200;
  server_host = codes "0.0.0.0";
  server_port = codes "8080";
  catalog_enabled = true;
  instances_list_enabled = true;
  manager_enabled = true;
  admin_claim = codes "is_admin";
  admin_value = codes "yes";
  debug = false;
}

-- The claims of a token: a team, a mail address, and that its bearer is no administrator.
abbrev token : Text → ClaimValue
token k =
    if text_eq k (codes "is_admin")
    then ClaimValue.bool false
    else if text_eq k (codes "email")
    then ClaimValue.string (codes "alice@example.org")
    else ClaimValue.nil

abbrev no_query : Text → Text
no_query k = []

abbrev asked : Request
asked = record {
  username = some (codes "alice");
  claims = some token;
  env = codes "lab";
  query = no_query;
  query_bool = λ k d. d;
}

build_params-CarriesWanted_example :
    CarriesWanted defaults.forwarded_claims asked lab
      (build_params defaults.forwarded_claims asked lab)
build_params-CarriesWanted_example = build_params-CarriesWanted defaults.forwarded_claims asked lab

-- A server on which alice has no claim.
abbrev without_claim : Kube
without_claim = record (server request [] two_warm) { get_claim = λ log k. err not_found }

alice-owner :
    resolve_owner (claims_map asked) lab.spec.owner_claim (codes "alice") ≡ (codes "alice", true)
unfolding resolve_owner sanitize_owner trim trim_right trim_left clean select is_key_char to_dash
    to_lower
alice-owner = refl

abbrev delete_nothing : H (Result (Unit {0}))
delete_nothing x = (Outcome.panics, x)

absent_claim_fails_example :
    ((serve (get_status without_claim defaults asked) []).0.status ≡ 500)
    × ((serve (extend_ttl without_claim defaults asked) []).0.status ≡ 500)
    × ((serve (delete_environment without_claim defaults delete_nothing asked) []).0.status ≡ 500)
absent_claim_fails_example =
    absent_claim_fails without_claim defaults asked (codes "alice") (codes "alice") lab [] refl refl
      alice-owner refl delete_nothing

-- The same request without claims.
abbrev unclaimed : Request
unclaimed = record asked { claims = none }

not_admin : is_admin unclaimed.claims defaults.admin_claim defaults.admin_value ≡ false
unfolding is_admin
not_admin = refl

admin_routes_refuse_example :
    ((serve (admin_instances_route without_claim defaults unclaimed) []).0.status ≡ 403)
    × ((serve (admin_templates_route without_claim defaults unclaimed) []).0.status ≡ 403)
    × ((serve (admin_instances_route without_claim defaults unclaimed) []).1 ≡ [])
    × ((serve (admin_templates_route without_claim defaults unclaimed) []).1 ≡ [])
admin_routes_refuse_example = admin_routes_refuse without_claim defaults unclaimed [] not_admin

not_true : text_eq (codes "yes") (codes "true") ≡ false
unfolding text_eq
not_true = refl

not_admin_claim : token (codes "is_admin") ≡ ClaimValue.bool false
unfolding text_eq
not_admin_claim = refl

false_claim_admits_example :
    (serve (admin_instances_route without_claim defaults asked) []).0 ≡ record {
      status = 200;
      body = instances (map instance_row (sort_by instance_before two_warm)) (length two_warm);
    }
false_claim_admits_example =
    false_claim_admits without_claim defaults asked [] token two_warm refl refl not_true refl
      not_admin_claim refl

abbrev relative : Text → Option Url
relative s = some (record { scheme = []; host = []; has_user = false; path = s; canonical = s })

-- Every cookie and every query has the same text.
abbrev session : Text → Text
session k = if text_eq k (codes "error") then [] else codes "/x"

callback-IsOurs_example :
    ((reply true relative
        (λ c v. some (some (codes "jwt")))
        (λ t. some (codes "/x"))
        session
        session).cookies
      ≡ cleared_flow true)
    × ((loc : Text)
        → (reply true relative
            (λ c v. some (some (codes "jwt")))
            (λ t. some (codes "/x"))
            session
            session).location
          ≡ some loc
        → (raw : Text) × IsOurs
            (λ c v. some (some (codes "jwt")))
            (λ t. some (codes "/x"))
            session
            session
            raw
          × (loc ≡ path_or_root relative (session cookie_return) ++ codes "#token=" ++ raw))
callback-IsOurs_example =
    callback-IsOurs true relative (λ c v. some (some (codes "jwt"))) (λ t. some (codes "/x"))
      session session

-- Every token is alice's.
abbrev verify_all : Text → Option (Text → ClaimValue)
verify_all t = some token

api_admits_example :
    Refused without_claim defaults verify_all delete_nothing Route.status
      (codes "Bearer jwt")
      asked
      []
    ⊎ Admitted without_claim defaults verify_all delete_nothing Route.status
        (codes "Bearer jwt")
        asked
        []
api_admits_example =
    api_admits without_claim defaults verify_all delete_nothing Route.status (codes "Bearer jwt")
      asked []

api_creates_own_example :
    Refused without_claim defaults verify_all delete_nothing Route.create
      (codes "Bearer jwt")
      asked
      []
    ⊎ CreatesOwn without_claim defaults verify_all delete_nothing (codes "Bearer jwt") asked lab []
api_creates_own_example =
    api_creates_own without_claim defaults verify_all delete_nothing (codes "Bearer jwt") asked lab
      [] refl

-- A provider that answers from the third attempt on.
abbrev third_time : ℕ → Option Text
third_time i = if ltb i 3 then none else some (codes "https://idp.example/token")

new_provider_with_retry_lem_example :
    let d = new_provider_with_retry third_time in
    (d.attempts ≤ 5)
    × (total d.delays ≤ 7500 * millisecond)
    × (d.provider ≡ third_time d.attempts)
    × ((i : ℕ) → 1 ≤ i → i < d.attempts → third_time i ≡ none)
    × (d.provider ≡ none → (i : ℕ) → 1 ≤ i → i ≤ 5 → third_time i ≡ none)
new_provider_with_retry_lem_example = new_provider_with_retry_lem third_time
