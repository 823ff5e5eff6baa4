-- ===== src/Flux.antt =====
-- internal/controller/flux.go: the names and objects that dploy asks Flux for, and what it reads from
-- their conditions. An error of CreateOrUpdate is wrapped, which keeps what the predicates tell of it.
mod Names
mod Verdict
mod Apply
pub mod Health
unfoldable pub use Names.{
  max_release_name_len, chart_ref, chart_version, engine_resource_name, managed_labels,
  template_source_name, template_labels, template_chart_probe_name,
}
pub use Verdict.{Readiness, in_progress, ready, failed, HelmReleaseState, SourceVerdict}
unfoldable pub use Verdict.{
  is_progressing, translate_helm_release, unknown_source, translate_chart_probe,
  template_source_ready,
}
unfoldable pub use Apply.{
  template_owner, instance_owner, ensure_source, ensure_chart_probe, ensure_namespace, release_spec,
  ensure_helm_release,
}
