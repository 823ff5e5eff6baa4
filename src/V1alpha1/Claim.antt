-- ===== src/V1alpha1/Claim.antt =====
-- api/v1alpha1/dployinstanceclaim_types.go.
use dploy.Prelude.{Bool, true, false, Option, List}
use dploy.Prelude.Int.{ℤ}
use dploy.Prelude.Text.{Text}
use dploy.V1alpha1.Common.{Time, ObjectMeta, Condition, ConnectionType}
use dploy.V1alpha1.Instance.{InstancePhase}

pub data ClaimPhase : Type 0 where
  unset pending bound rejected expired : ClaimPhase

pub record DployInstanceClaimSpec : Type 0 where
  pub template_ref : Text
  pub owner : Text
  pub params : List (Text × Text)
  pub ttl_seconds : ℤ
  pub wait_for_pool : Bool

pub record DployInstanceClaimStatus : Type 0 where
  pub phase : ClaimPhase
  pub instance_ref : Text
  pub uuid : Text
  pub connection_url : Text
  pub connection_type : ConnectionType
  pub connection_message : Text
  pub instance_phase : InstancePhase
  pub health : Text
  pub bound_at : Option Time
  pub expires_at : Option Time
  pub ttl_seconds : ℤ
  pub max_ttl_seconds : ℤ
  pub observed_generation : ℤ
  pub conditions : List Condition

pub record DployInstanceClaim : Type 0 where
  pub meta : ObjectMeta
  pub spec : DployInstanceClaimSpec
  pub status : DployInstanceClaimStatus

-- Whether a claim still stands for an environment: terminal phases do not.
unfoldable pub is_active : DployInstanceClaim → Bool
is_active c = elim c.status.phase [ rejected ↦ false | expired ↦ false | _ ↦ true ]
