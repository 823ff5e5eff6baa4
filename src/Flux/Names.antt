-- ===== src/Flux/Names.antt =====
-- The names, labels and chart references of flux.go.
use dploy.Prelude.{ℕ, ◌++◌, [], ◌∷◌, none, some, if◌then◌else◌, is_empty}
use dploy.Prelude.Text.{Text, codes}
use dploy.V1alpha1.Common.{Labels, no_labels, ChartSourceType}
use dploy.V1alpha1.Template.{DployTemplate}
use dploy.V1alpha1.Instance.{DployInstance}
use dploy.Naming.{sanitize, truncate, first_non_empty}

abbrev pub max_release_name_len : ℕ
max_release_name_len = 53

unfoldable pub chart_ref : DployTemplate → Text
chart_ref tmpl = first_non_empty (tmpl.spec.chart.path ∷ tmpl.spec.chart.chart ∷ [])

unfoldable pub chart_version : DployTemplate → Text
chart_version tmpl = elim tmpl.spec.chart.type [
  | ChartSourceType.helm ↦ first_non_empty (tmpl.spec.chart.target_revision ∷ codes "*" ∷ [])
  | _ ↦ []
]

unfoldable pub engine_resource_name : DployInstance → Text
engine_resource_name inst = inst.meta.name

-- The labels of an instance's objects; the owner only where it has a key.
unfoldable pub managed_labels : DployInstance → Labels
managed_labels inst =
    let o = sanitize inst.spec.owner in
    record no_labels {
      managed = some (codes "true");
      template = some inst.spec.template_ref;
      instance_id = some inst.status.uuid;
      owner = if is_empty o then none else some o;
    }

unfoldable pub template_source_name : DployTemplate → Text
template_source_name tmpl = tmpl.meta.name ++ codes "-src"

unfoldable pub template_labels : DployTemplate → Labels
template_labels tmpl = record no_labels {
  managed = some (codes "true");
  template = some tmpl.meta.name;
}

unfoldable pub template_chart_probe_name : DployTemplate → Text
template_chart_probe_name tmpl =
    truncate (template_source_name tmpl ++ codes "-probe") max_release_name_len
