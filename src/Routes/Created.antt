-- ===== src/Routes/Created.antt =====
-- From a request's header to the claim that is created for it.
use dploy.Prelude.{◌≡◌, refl, ◌⊎◌, inl, inr, Option, some, ◌++◌}
use dploy.Prelude.Text.{Text, codes}
use dploy.V1alpha1.Template.{DployTemplate}
use dploy.Naming.{sanitize_username}
use dploy.KubeClient.{ClaimValue, resolve_owner}
use dploy.Configuration.{Config}
use dploy.Cluster.{Kube, Result, ok, key, Log}
use dploy.Cluster.Traces.{count_calls}
use dploy.Handlers.{Request, H, serve, claims_map}
use dploy.Handlers.Owned.{creates_for_another, create_environment_owned}
use dploy.Routes.Api.{Route, dispatch, api}
use dploy.Routes.Admission.{Refused, api_admits}

module _ (kube : Kube) (config : Config) (verify : Text → Option (Text → ClaimValue))
    (delete_nil : H (Result (Unit {0}))) (auth_header : Text) (req : Request) (tmpl : DployTemplate)
    (log : Log) where
  -- Nothing was created but claims of this template, for the owner key that it gives the user whom the
  -- header's verified token names.
  abbrev pub CreatesOwn : Type 0
  CreatesOwn =
      (token : Text) × (raw : Text) × (claims : Text → ClaimValue) × (auth_header
        ≡ codes "Bearer " ++ token)
      × (verify token ≡ some claims)
      × (claims config.jwt_username_claim ≡ ClaimValue.string raw)
      × (let owner = (resolve_owner claims tmpl.spec.owner_claim (sanitize_username raw)).0 in
          count_calls (creates_for_another owner tmpl.meta.name)
            (serve (api kube config verify delete_nil Route.create auth_header req) log).1
          ≡ count_calls (creates_for_another owner tmpl.meta.name) log)

  -- A request for an environment is answered with a 401 and no call of the API server, or it creates
  -- claims of the template only, and only for the owner key that the template's owner claim gives the
  -- user and the claims of the verified token in its header.
  pub api_creates_own :
      kube.get_template log (key config.namespace req.env) ≡ ok tmpl
      → Refused kube config verify delete_nil Route.create auth_header req log ⊎ CreatesOwn
  unfolding dispatch claims_map
  api_creates_own read =
      elim (api_admits kube config verify delete_nil Route.create auth_header req log) [
        | inl refused ↦ inl refused
        | inr (token, raw, claims, bearer, verified, named, there, same) ↦
            let known : Request = record req {
              username = some (sanitize_username raw);
              claims = some claims;
            } in
            inr (
              token,
              raw,
              claims,
              bearer,
              verified,
              named,
              rw same (
                  create_environment_owned kube config known (sanitize_username raw) tmpl log refl
                    read),
            )
      ]
