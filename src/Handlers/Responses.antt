-- ===== src/Handlers/Responses.antt =====
-- internal/models/responses.go. A time that is printed in RFC 3339 is the time, `none` where the text
-- is empty; a string of an enumeration is its constructor.
use dploy.Prelude.{ℕ, Bool, Option, List}
use dploy.Prelude.Int.{ℤ}
use dploy.Prelude.Text.{Text}
use dploy.V1alpha1.Common.{Time, Message, ConnectionType, TemplateMethod, ChartSourceType}
use dploy.V1alpha1.Instance.{InstancePhase}

pub record AvailableEnvironmentResponse : Type 0 where
  pub name : Text
  pub description : Text
  pub icon : Text
  pub category : Text
  pub ttl : ℤ
  pub extend_ttl : ℤ
  pub max_extends : ℤ
  pub is_unlimited : Bool

pub record UserEnvironmentResponse : Type 0 where
  pub name : Text
  pub description : Text
  pub uuid : Text
  pub status : Text
  pub url : Text
  pub expires_at : Option Time
  pub icon : Text
  pub extend_count : ℤ
  pub max_extends : ℤ
  pub extend_ttl : ℤ
  pub is_unlimited : Bool
  pub owner : Text
  pub shared : Bool
  pub message : Message
  pub connection_type : ConnectionType
  pub connection_message : Text

-- RunEnvironmentResponse and StatusResponse, whose fields are the same.
pub record RunEnvironmentResponse : Type 0 where
  pub uuid : Text
  pub status : Text
  pub url : Text
  pub expires_at : Option Time
  pub owner : Text
  pub shared : Bool
  pub message : Message
  pub connection_type : ConnectionType
  pub connection_message : Text

-- The features that the web interface offers.
pub record UiConfigResponse : Type 0 where
  pub catalog_enabled : Bool
  pub instances_enabled : Bool
  pub manager_enabled : Bool

pub record MeResponse : Type 0 where
  pub username : Text
  pub owner : Text
  pub admin : Bool

pub record AdminInstanceRow : Type 0 where
  pub name : Text
  pub template : Text
  pub owner : Text
  pub phase : InstancePhase
  pub url : Text
  pub expires_at : Option Time
  pub created_at : Option Time
  pub namespace : Text
  pub claim : Text
  pub uuid : Text
  pub is_unlimited : Bool

pub record AdminTemplateRow : Type 0 where
  pub name : Text
  pub display_name : Text
  pub method : TemplateMethod
  pub enabled : Bool
  pub visible : Bool
  pub pool_size : ℤ
  pub available : ℤ
  pub claimed : ℤ
  pub chart_type : ChartSourceType
  pub chart_repo : Text
  pub chart_ref : Text
  pub revision : Text
  pub created_at : Option Time

-- What a handler answers; `problem` is an ErrorResponse, `health` a HealthResponse.
pub data Body : Type 0 where
  no_body : Body
  problem : Message → Body
  environment : RunEnvironmentResponse → Body
  extension : Time → Body
  health : Text → Body
  ui_config : UiConfigResponse → Body
  catalog : List AvailableEnvironmentResponse → Body
  environments : List UserEnvironmentResponse → ℕ → ℤ → Body
  me : MeResponse → Body
  instances : List AdminInstanceRow → ℕ → Body
  templates : List AdminTemplateRow → ℕ → Body
