-- ===== src/Handlers/Absent.antt =====
-- The three handlers that begin with requireClaim, where the requester has no claim.
use dploy.Prelude.{◌≡◌, true, none, some, ◌∷◌, arith}
use dploy.Prelude.Text.{Text}
use dploy.V1alpha1.Template.{DployTemplate}
use dploy.Naming.{claim_name}
use dploy.KubeClient.{resolve_owner, get_owner_claim}
use dploy.Configuration.{Config}
use dploy.Cluster.{Kube, Result, ok, err, not_found, key, Call, Log}
use dploy.Handlers.Context.{Request, H, returns, new_response, serve}
use dploy.Handlers.Parameters.{claims_map}
use dploy.Handlers.Run.{
  resolve_owner_of, require_claim_of, require_claim, get_status, extend_ttl, delete_environment,
}

module _ (kube : Kube) (config : Config) (req : Request) (username owner : Text)
    (tmpl : DployTemplate) (log : Log) (user : req.username ≡ some username)
    (read : kube.get_template log (key config.namespace req.env) ≡ ok tmpl)
    (owned : resolve_owner (claims_map req) tmpl.spec.owner_claim username ≡ (owner, true))
    (absent : kube.get_claim
        (Call.get_template (key config.namespace req.env) ∷ log)
        (key config.namespace (claim_name owner req.env))
      ≡ err not_found) where
  require_claim_absent :
      (require_claim kube config req (record { response = new_response; log = log })).0
      ≡ returns (none, none)
  unfolding require_claim require_claim_of resolve_owner_of get_owner_claim
  require_claim_absent = ground arith

  -- A requester who has no claim for an environment of the catalogue is answered with the status 500
  -- where the environment's status is asked for, its extension or its deletion: requireClaim writes
  -- a 404, but returns Go's nil as the error, and each handler goes on to dereference a nil claim.
  pub absent_claim_fails :
      (delete_nil : H (Result (Unit {0})))
      → ((serve (get_status kube config req) log).0.status ≡ 500)
        × ((serve (extend_ttl kube config req) log).0.status ≡ 500)
        × ((serve (delete_environment kube config delete_nil req) log).0.status ≡ 500)
  unfolding serve get_status extend_ttl delete_environment
  absent_claim_fails delete_nil = (
    ground (arith, require_claim_absent),
    ground (arith, require_claim_absent),
    ground (arith, require_claim_absent),
  )
