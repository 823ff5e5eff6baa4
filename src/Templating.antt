-- ===== src/Templating.antt =====
-- internal/templating/templating.go: the data that a template sees. `values` is the raw JSON of the
-- operator's values. Rendering itself stands with the instance controller, its only caller.
use dploy.Prelude.{List}
use dploy.Prelude.Text.{Text}
use dploy.V1alpha1.Template.{DployTemplate}

pub record TemplateData : Type 0 where
  pub owner : Text
  pub uuid : Text
  pub base_domain : Text
  pub host : Text
  pub url : Text
  pub connection_url : Text
  pub namespace : Text
  pub template : DployTemplate
  pub params : List (Text × Text)
  pub values : Text
