-- ===== src/Handlers/Gate.antt =====
-- Who is an administrator, and what the others get from the Manager's routes.
use dploy.Prelude.{
  ℕ, ◌≡◌, ◌&&◌, true, false, some, List, map, length, is_empty, arith, if◌then◌else◌,
}
use dploy.Prelude.Text.{Text, codes, text_eq}
use dploy.KubeClient.{ClaimValue}
use dploy.Configuration.{Config}
use dploy.V1alpha1.Instance.{DployInstance}
use dploy.Sorting.{sort_by}
use dploy.Cluster.{Kube, Log, ok, direct, all_in}
use dploy.Handlers.Responses.{instances}
use dploy.Handlers.Context.{Request, serve}
use dploy.Handlers.Admin.{
  admin_value_is, is_admin, instance_row, instance_before, list_all_instances_answer,
  admin_middleware, manager_gate, admin_instances_route, admin_templates_route,
}

-- Where the Manager is off, or the requester's claims do not count as an administrator's, either route
-- of the Manager answers no more than an error, 404 where the Manager is off and 403 where it is on,
-- and no call goes to the API server.
pub admin_routes_refuse :
    (kube : Kube) (config : Config) (req : Request) (log : Log)
    → (config.manager_enabled && is_admin req.claims config.admin_claim config.admin_value) ≡ false
    → let status : ℕ = if config.manager_enabled then 403 else 404 in
      ((serve (admin_instances_route kube config req) log).0.status ≡ status)
      × ((serve (admin_templates_route kube config req) log).0.status ≡ status)
      × ((serve (admin_instances_route kube config req) log).1 ≡ log)
      × ((serve (admin_templates_route kube config req) log).1 ≡ log)
unfolding serve admin_instances_route admin_templates_route manager_gate admin_middleware
admin_routes_refuse kube config req log denied =
    (ground arith, ground arith, ground arith, ground arith)

-- Where the value that marks an administrator is not "true", a requester whose claim is the Boolean
-- false is served the instances of every owner.
pub false_claim_admits :
    (kube : Kube) (config : Config) (req : Request) (log : Log) (claims : Text → ClaimValue)
    (is : List DployInstance)
    → config.manager_enabled ≡ true
    → is_empty config.admin_claim ≡ false
    → text_eq config.admin_value (codes "true") ≡ false
    → req.claims ≡ some claims
    → claims config.admin_claim ≡ ClaimValue.bool false
    → kube.list_instances log direct config.namespace all_in ≡ ok is
    → (serve (admin_instances_route kube config req) log).0 ≡ record {
      status = 200;
      body = instances (map instance_row (sort_by instance_before is)) (length is);
    }
unfolding serve admin_instances_route manager_gate admin_middleware is_admin admin_value_is
    list_all_instances_answer
false_claim_admits kube config req log claims is on named other has deny list = ground arith
