-- ===== src/Effective.antt =====
-- internal/operatorconfig/resolver.go: the operator's configuration merged over the built-in
-- fallbacks. time.ParseDuration and the JSON decoder are parameters; the decoder's result, which only
-- the renderer reads, stays raw.
use dploy.Prelude.{ℕ, ◌*◌, Bool, not, ◌&&◌, Option, none, some, [], if◌then◌else◌, is_empty}
use dploy.Prelude.Int.{ℤ, pos, eq_ℤ}
use dploy.Prelude.Text.{Text, codes}
use dploy.V1alpha1.Common.{EngineType, ConnectionType}
use dploy.V1alpha1.Operator.{OperatorConfigSpec}

pub record Effective : Type 0 where
  pub default_engine : EngineType
  pub flux_namespace : Text
  pub flux_service_account : Text
  pub flux_interval : ℤ
  pub base_domain : Text
  pub connection_url_template : Text
  pub default_connection_type : ConnectionType
  pub connection_message_template : Text
  pub ttl_seconds : ℤ
  pub extend_seconds : ℤ
  pub max_extends : ℤ
  pub max_instances_per_user : ℤ
  pub values : Text

abbrev pub second : ℕ
second = 1000000000

abbrev pub fallbacks : Effective
fallbacks = record {
  default_engine = EngineType.flux;
  flux_namespace = codes "flux-system";
  flux_service_account = [];
  flux_interval = pos (300 * second);
  base_domain = [];
  connection_url_template = [];
  default_connection_type = ConnectionType.unset;
  connection_message_template = [];
  ttl_seconds = pos 86400;
  extend_seconds = pos 7200;
  max_extends = pos 3;
  max_instances_per_user = pos 5;
  values = [];
}

abbrev pub text_or : Text → Text → Text
text_or t d = if is_empty t then d else t

abbrev pub number_or : ℤ → ℤ → ℤ
number_or n d = if eq_ℤ n (pos 0) then d else n

abbrev pub engine_or : EngineType → EngineType → EngineType
engine_or EngineType.unset d = d
engine_or e d = e

abbrev pub connection_or : ConnectionType → ConnectionType → ConnectionType
connection_or ConnectionType.unset d = d
connection_or c d = c

interval_or : Option ℤ → ℤ → ℤ
interval_or none d = d
interval_or (some n) d = n

-- Resolve, behind the read of the singleton: `none` is a missing object, and the result is `none`
-- where the values do not decode.
module _ (parse_duration : Text → Option ℤ) (decodes : Text → Bool) where
  unfoldable pub merge : OperatorConfigSpec → Effective
  unfolding interval_or
  merge spec = record {
    default_engine = engine_or spec.default_engine EngineType.flux;
    flux_namespace = text_or spec.flux.namespace (codes "flux-system");
    flux_service_account = spec.flux.service_account_name;
    flux_interval =
        if is_empty spec.flux.interval
        then pos (300 * second)
        else interval_or (parse_duration spec.flux.interval) (pos (300 * second));
    base_domain = spec.base_domain;
    connection_url_template = spec.connection_url_template;
    default_connection_type = spec.default_connection_type;
    connection_message_template = spec.connection_message_template;
    ttl_seconds = number_or spec.defaults.ttl_seconds (pos 86400);
    extend_seconds = number_or spec.defaults.extend_seconds (pos 7200);
    max_extends = number_or spec.defaults.max_extends (pos 3);
    max_instances_per_user = number_or spec.defaults.max_instances_per_user (pos 5);
    values = spec.values;
  }

  unfoldable pub resolve : Option OperatorConfigSpec → Option Effective
  resolve none = some fallbacks
  resolve (some spec) =
      if not (is_empty spec.values) && not (decodes spec.values) then none else some (merge spec)
