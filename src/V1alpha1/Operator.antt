-- ===== src/V1alpha1/Operator.antt =====
-- api/v1alpha1/operatorconfig_types.go. The fields of the ArgoCD engine, which nothing reads, are
-- left out; `values` is the raw JSON.
use dploy.Prelude.{List}
use dploy.Prelude.Int.{ℤ}
use dploy.Prelude.Text.{Text, codes}
use dploy.V1alpha1.Common.{ObjectMeta, Condition, EngineType, ConnectionType}

pub record FluxConfig : Type 0 where
  pub namespace : Text
  pub service_account_name : Text
  pub interval : Text

pub record InstanceDefaults : Type 0 where
  pub ttl_seconds : ℤ
  pub extend_seconds : ℤ
  pub max_extends : ℤ
  pub max_instances_per_user : ℤ

pub record OperatorConfigSpec : Type 0 where
  pub default_engine : EngineType
  pub flux : FluxConfig
  pub base_domain : Text
  pub connection_url_template : Text
  pub default_connection_type : ConnectionType
  pub connection_message_template : Text
  pub defaults : InstanceDefaults
  pub values : Text

pub record OperatorConfigStatus : Type 0 where
  pub observed_generation : ℤ
  pub conditions : List Condition

pub record OperatorConfig : Type 0 where
  pub meta : ObjectMeta
  pub spec : OperatorConfigSpec
  pub status : OperatorConfigStatus

-- OperatorConfigName.
abbrev pub operator_config_name : Text
operator_config_name = codes "default"
