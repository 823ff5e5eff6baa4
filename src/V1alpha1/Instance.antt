-- ===== src/V1alpha1/Instance.antt =====
-- api/v1alpha1/dployinstance_types.go.
use dploy.Prelude.{Bool, Option, none, List, []}
use dploy.Prelude.Int.{ℤ, pos}
use dploy.Prelude.Text.{Text}
use dploy.V1alpha1.Common.{Time, ObjectMeta, Condition, EngineType, ConnectionType}

pub data InstancePhase : Type 0 where
  unset pending provisioning ready available claimed expiring failed : InstancePhase

pub record DployInstanceSpec : Type 0 where
  pub template_ref : Text
  pub owner : Text
  pub params : List (Text × Text)
  pub pooled : Bool
  pub ttl_seconds : ℤ
  pub expires_at : Option Time

pub record DployInstanceStatus : Type 0 where
  pub phase : InstancePhase
  pub uuid : Text
  pub namespace : Text
  pub url : Text
  pub connection_type : ConnectionType
  pub connection_message : Text
  pub engine : EngineType
  pub engine_ref : Text
  pub health : Text
  pub extend_count : ℤ
  pub expires_at : Option Time
  pub observed_generation : ℤ
  pub conditions : List Condition

pub record DployInstance : Type 0 where
  pub meta : ObjectMeta
  pub spec : DployInstanceSpec
  pub status : DployInstanceStatus

abbrev pub new_status : DployInstanceStatus
new_status = record {
  phase = unset;
  uuid = [];
  namespace = [];
  url = [];
  connection_type = ConnectionType.unset;
  connection_message = [];
  engine = EngineType.unset;
  engine_ref = [];
  health = [];
  extend_count = pos 0;
  expires_at = none;
  observed_generation = pos 0;
  conditions = [];
}
