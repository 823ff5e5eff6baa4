-- ===== src/Routes/Api.antt =====
-- The protected group /api, and the two public endpoints that read the configuration.
use dploy.Prelude.{Option, if◌then◌else◌}
use dploy.Prelude.Text.{Text, codes}
use dploy.V1alpha1.Common.{text}
use dploy.KubeClient.{ClaimValue}
use dploy.Configuration.{Config}
use dploy.Cluster.{Kube, Result}
use dploy.Handlers.{
  problem, Request, H, GoError, send, create_environment, get_status, extend_ttl,
  delete_environment, list_available, list_user_environments, get_me, admin_instances_route,
  admin_templates_route,
}
use dploy.Auth.{middleware}

-- The paths of the group with their methods.
pub data Route : Type 0 where
  list create status extend delete self all_instances all_templates : Route

-- The endpoint /api/environments/available, which needs no token.
unfoldable pub available_route : Kube → Config → H GoError
available_route kube config =
    if config.catalog_enabled
    then list_available kube config
    else send 404 (problem (text (codes "catalog disabled")))

-- The last argument but two is what the client library does with a nil object.
module _ (kube : Kube) (config : Config) (verify : Text → Option (Text → ClaimValue))
    (delete_nil : H (Result (Unit {0}))) where
  unfoldable pub dispatch : Route → Request → H GoError
  dispatch Route.list req =
      if config.instances_list_enabled
      then list_user_environments kube config req
      else send 404 (problem (text (codes "instances list disabled")))
  dispatch Route.create req = create_environment kube config req
  dispatch Route.status req = get_status kube config req
  dispatch Route.extend req = extend_ttl kube config req
  dispatch Route.delete req = delete_environment kube config delete_nil req
  dispatch Route.self req = get_me config req
  dispatch Route.all_instances req = admin_instances_route kube config req
  dispatch Route.all_templates req = admin_templates_route kube config req

  -- A request with its Authorization header, before anything is known of the requester.
  unfoldable pub api : Route → Text → Request → H GoError
  api route auth_header req =
      middleware verify config.jwt_username_claim auth_header req (dispatch route)
