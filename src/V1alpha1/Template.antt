-- ===== src/V1alpha1/Template.antt =====
-- api/v1alpha1/dploytemplate_types.go.
use dploy.Prelude.{Bool, true, Option, none, some, List}
use dploy.Prelude.Int.{ℤ}
use dploy.Prelude.Text.{Text}
use dploy.V1alpha1.Common.{
  ObjectMeta, Condition, EngineType, ConnectionType, TemplateMethod, ChartSource, TtlSpec,
}

pub record PoolSpec : Type 0 where
  pub size : ℤ
  pub max_size : ℤ
  pub recycle : Option Bool

pub record TemplateParameter : Type 0 where
  pub name : Text
  pub description : Text
  pub required : Bool
  pub default : Text

pub record DployTemplateSpec : Type 0 where
  pub display_name : Text
  pub description : Text
  pub icon : Text
  pub category : Text
  pub enabled : Bool
  pub visible : Option Bool
  pub owner_claim : Text
  pub method : TemplateMethod
  pub pool : Option PoolSpec
  pub engine : EngineType
  pub chart : ChartSource
  pub values_template : Text
  pub value_files : List Text
  pub connection_url_template : Text
  pub connection_type : ConnectionType
  pub connection_message_template : Text
  pub ttl : Option TtlSpec
  pub max_instances_per_user : Option ℤ
  pub parameters : List TemplateParameter

pub record DployTemplateStatus : Type 0 where
  pub pool_available : ℤ
  pub pool_claimed : ℤ
  pub pool_total : ℤ
  pub observed_generation : ℤ
  pub conditions : List Condition

pub record DployTemplate : Type 0 where
  pub meta : ObjectMeta
  pub spec : DployTemplateSpec
  pub status : DployTemplateStatus

-- A template with no `visible` field is listed.
unfoldable pub is_visible : DployTemplate → Bool
is_visible t = elim t.spec.visible [ none ↦ true | some v ↦ v ]
