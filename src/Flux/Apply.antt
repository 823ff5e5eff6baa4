-- ===== src/Flux/Apply.antt =====
-- The objects that dploy asks Flux for: ensureSource, ensureChartProbe, ensureNamespace and
-- ensureHelmRelease.
use dploy.Prelude.{true, none, some, List, [], ◌∷◌, if◌then◌else◌, is_empty}
use dploy.Prelude.Int.{pos}
use dploy.Prelude.Text.{has_prefix, Text, codes}
use dploy.V1alpha1.Common.{
  Condition, OwnerReference, dploy_template, dploy_instance, ChartSourceType,
}
use dploy.V1alpha1.Template.{DployTemplate}
use dploy.V1alpha1.Instance.{DployInstance}
use dploy.Naming.{first_non_empty, truncate}
use dploy.Effective.{Effective}
use dploy.Cluster.{
  Kube, key, SourceKind, git_repository_kind, helm_repository_kind, Source, HelmRelease, Call, M,
  ◌>>=◌, ◌>>◌, pure, ask,
}
use dploy.Cluster.Requests.{write}
use dploy.Flux.Names.{
  max_release_name_len, chart_ref, chart_version, engine_resource_name, managed_labels,
  template_source_name, template_labels, template_chart_probe_name,
}

abbrev pub template_owner : DployTemplate → OwnerReference
template_owner tmpl = record {
  kind = dploy_template;
  name = tmpl.meta.name;
  uid = tmpl.meta.uid;
  controller = true;
}

abbrev pub instance_owner : DployInstance → OwnerReference
instance_owner inst = record {
  kind = dploy_instance;
  name = inst.meta.name;
  uid = inst.meta.uid;
  controller = true;
}

-- What ensureHelmRelease asks of the release.
unfoldable pub release_spec :
    DployInstance → DployTemplate → Effective → SourceKind → Text → Text → Text → HelmRelease
release_spec inst tmpl eff source_kind source_name target_namespace values_json = record {
  chart = chart_ref tmpl;
  version = chart_version tmpl;
  value_files = tmpl.spec.value_files;
  source_kind = source_kind;
  source_name = source_name;
  release_name = truncate inst.meta.name max_release_name_len;
  target_namespace = target_namespace;
  storage_namespace = target_namespace;
  interval = eff.flux_interval;
  install_retries = pos 3;
  values = if is_empty values_json then none else some values_json;
}

module _ (kube : Kube) where
  -- The source's kind and name.
  unfoldable pub ensure_source : DployTemplate → Effective → M (SourceKind × Text)
  ensure_source tmpl eff =
      let cs = tmpl.spec.chart in
      let name = template_source_name tmpl in
      let apply : Source → M (Unit {0}) = λ s. write kube (
        Call.apply_source (key tmpl.meta.namespace name) (template_labels tmpl)
          (template_owner tmpl) s) in
      elim cs.type [
        | ChartSourceType.helm ↦ do
          apply (
              Source.helm_repository cs.repo_url (has_prefix cs.repo_url (codes "oci://"))
                eff.flux_interval)
          pure (helm_repository_kind, name)
        | _ ↦ do
          apply (
              Source.git_repository cs.repo_url
                (first_non_empty (cs.target_revision ∷ codes "main" ∷ [])) eff.flux_interval)
          pure (git_repository_kind, name)
      ]

  -- The probe's name and conditions.
  unfoldable pub ensure_chart_probe :
      DployTemplate → SourceKind → Text → Effective → M (Text × List Condition)
  ensure_chart_probe tmpl source_kind source_name eff = do
    let name = template_chart_probe_name tmpl
    let call =
        Call.apply_chart_probe (key tmpl.meta.namespace name) (template_labels tmpl)
          (template_owner tmpl)
          (record {
            chart = chart_ref tmpl;
            interval = eff.flux_interval;
            source_kind = source_kind;
            source_name = source_name;
            version = chart_version tmpl;
          })
    conditions ← ask call (λ log. kube.apply_chart_probe log call)
    pure (name, conditions)

  unfoldable pub ensure_namespace : Text → DployInstance → M (Unit {0})
  ensure_namespace name inst = write kube (Call.apply_namespace name (managed_labels inst))

  unfoldable pub ensure_helm_release :
      DployInstance → DployTemplate → Effective → SourceKind → Text → Text → Text → M (Unit {0})
  ensure_helm_release inst tmpl eff source_kind source_name target_namespace values_json =
      write kube (
        Call.apply_helm_release (key inst.meta.namespace (engine_resource_name inst))
          (managed_labels inst) (instance_owner inst)
          (release_spec inst tmpl eff source_kind source_name target_namespace values_json))
