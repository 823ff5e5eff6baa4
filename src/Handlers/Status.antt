-- ===== src/Handlers/Status.antt =====
-- The helpers of internal/handlers/run.go that read a claim.
use dploy.Prelude.{Bool, true, false, not, Option, none, some, [], is_empty, if◌then◌else◌}
use dploy.Prelude.Text.{Text, codes, text_eq}
use dploy.V1alpha1.Common.{Message, text}
use dploy.V1alpha1.Instance.{InstancePhase}
use dploy.V1alpha1.Claim.{ClaimPhase, DployInstanceClaim}
use dploy.KubeClient.{resolve_owner}
use dploy.Cluster.{Kube}
use dploy.Handlers.Responses.{RunEnvironmentResponse}
use dploy.Handlers.Context.{Request}
use dploy.Handlers.Parameters.{claims_map}

unfoldable pub instance_phase_status : InstancePhase → Text → Text
instance_phase_status phase health =
    let healthy = if is_empty health then codes "Healthy" else health in
    elim phase [
      | InstancePhase.ready ↦ healthy
      | InstancePhase.claimed ↦ healthy
      | InstancePhase.available ↦ healthy
      | InstancePhase.provisioning ↦ codes "Progressing"
      | InstancePhase.failed ↦ codes "Degraded"
      | InstancePhase.expiring ↦ codes "Deleting"
      | _ ↦ codes "pending"
    ]

unfoldable pub claim_status : DployInstanceClaim → Text
claim_status claim = elim claim.status.phase [
  | ClaimPhase.bound ↦ instance_phase_status claim.status.instance_phase claim.status.health
  | ClaimPhase.rejected ↦ codes "Degraded"
  | ClaimPhase.expired ↦ codes "Deleting"
  | _ ↦ codes "pending"
]

abbrev pub is_bound_phase : ClaimPhase → Bool
is_bound_phase ClaimPhase.bound = true
is_bound_phase _ = false

-- The empty text.
abbrev pub no_message : Message
no_message = text []

abbrev pub is_blank : Message → Bool
is_blank (Message.text t) = is_empty t
is_blank _ = false

-- The username is "" where the context has none.
abbrev pub text_of : Option Text → Text
text_of none = []
text_of (some t) = t

unfoldable pub is_shared : Request → Text → Bool
is_shared req owner =
    if is_empty owner
    then false
    else not (text_eq owner (resolve_owner (claims_map req) [] (text_of req.username)).0)

module _ (kube : Kube) where
  unfoldable pub claim_message : DployInstanceClaim → Message
  claim_message claim =
      if is_bound_phase claim.status.phase
      then no_message
      else elim (kube.find_status_condition claim.status.conditions (codes "Bound")) [
        | none ↦ no_message
        | some c ↦ c.message
      ]

  -- The answer of respondClaim and of GetStatus.
  unfoldable pub claim_response : Request → DployInstanceClaim → RunEnvironmentResponse
  claim_response req claim = record {
    uuid = claim.status.uuid;
    status = claim_status claim;
    url = claim.status.connection_url;
    expires_at = claim.status.expires_at;
    owner = claim.spec.owner;
    shared = is_shared req claim.spec.owner;
    message = claim_message claim;
    connection_type = claim.status.connection_type;
    connection_message = claim.status.connection_message;
  }
