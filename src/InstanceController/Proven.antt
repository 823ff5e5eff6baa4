-- ===== src/InstanceController/Proven.antt =====
-- A HelmRelease is applied only for a template whose chart is known to resolve.
use dploy.Prelude.{ℕ, ◌≡◌, ◌∙◌, ◌∷◌, Bool, true, false, some, List, arith}
use dploy.Prelude.Text.{Text}
use dploy.V1alpha1.Common.{Condition, Message}
use dploy.V1alpha1.Template.{DployTemplate}
use dploy.V1alpha1.Instance.{DployInstance}
use dploy.Effective.{Effective}
use dploy.Flux.{SourceVerdict, ensure_namespace, ensure_source, template_source_ready}
use dploy.Cluster.{Kube, Key, key, Log, Call, ok, cached}
use dploy.Cluster.Requests.{resolve_config}
use dploy.Cluster.Traces.{count_calls}
use dploy.TemplateController.{Tally, source_condition, with_pool_status}
use dploy.InstanceController.Meta.{ensure_meta, set_ready, patch_status, fail_with}
use dploy.InstanceController.Teardown.{
  reconcile_delete, await_uninstall, finish_teardown, write_unless_gone,
}
use dploy.InstanceController.Materialise.{materialise, race_or_fail, hold_back}
use dploy.InstanceController.Reconcile.{
  reconcile, reconcile_instance, reconcile_stamped, reconcile_named, persist_meta, assign_uuid,
}

abbrev pub is_release : Call → Bool
is_release (Call.apply_helm_release k l o s) = true
is_release _ = false

-- How many HelmReleases have been applied.
abbrev pub releases : Log → ℕ
releases = count_calls is_release

-- What apimeta keeps of a condition that was set: finding its type gives its status.
pub record KeepsConditions (kube : Kube) : Type 0 where
  pub finds :
      (l : Log) (cs : List Condition) (c : Condition)
      → (found : Condition) × (kube.find_status_condition (kube.set_status_condition l cs c) c.kind
          ≡ some found)
        × (found.status ≡ c.status)

-- The verdict that the template controller writes into a status is the one that the instance
-- controller reads there.
pub template_source_ready-with_pool_status :
    (kube : Kube) (keeps : KeepsConditions kube) (l : Log) (tmpl : DployTemplate)
    (src : SourceVerdict) (t : Tally) (created deleted available : ℕ)
    → (template_source_ready kube (with_pool_status kube l tmpl src t created deleted available)).0
      ≡ src.ok
unfolding template_source_ready with_pool_status source_condition
template_source_ready-with_pool_status kube keeps l tmpl src t created deleted available =
    ground (arith, keeps.finds l tmpl.status.conditions (source_condition tmpl src))

module _ (kube : Kube) where
  patch_releases :
      (i : DployInstance) (log : Log) → releases (patch_status kube i log).1 ≡ releases log
  unfolding patch_status count_calls
  patch_releases i log = ground arith

  fail_releases :
      (i : DployInstance) (r : Text) (m : Message) (log : Log)
      → releases (fail_with kube i r m log).1 ≡ releases log
  unfolding fail_with set_ready
  fail_releases i r m log = grind (arith, patch_releases)

  config_releases : (log : Log) → releases (resolve_config kube log).1 ≡ releases log
  unfolding resolve_config count_calls
  config_releases log = ground arith

  delete_releases :
      (i : DployInstance) (log : Log) → releases (reconcile_delete kube i log).1 ≡ releases log
  unfolding reconcile_delete await_uninstall finish_teardown write_unless_gone count_calls
  delete_releases i log = grind (arith, patch_releases)

  module _ (tmpl : DployTemplate) (unproven : (template_source_ready kube tmpl).0 ≡ false) where
    releases-materialise :
        (i : DployInstance) (e : Effective) (v : Text) (log : Log)
        → releases (materialise kube i tmpl e v log).1 ≡ releases log
    unfolding materialise hold_back set_ready race_or_fail ensure_namespace ensure_source
        count_calls
    releases-materialise i e v log = grind (arith, fail_releases, patch_releases)

    named_releases :
        (i : DployInstance) (e : Effective) (log : Log)
        → releases (reconcile_named kube i tmpl e log).1 ≡ releases log
    unfolding reconcile_named
    named_releases i e log = grind (arith, releases-materialise, fail_releases)

    stamped_releases :
        (i : DployInstance) (log : Log)
        → ((l : Log) → kube.get_template l (key i.meta.namespace i.spec.template_ref) ≡ ok tmpl)
        → releases (reconcile_stamped kube i log).1 ≡ releases log
    unfolding reconcile_stamped assign_uuid count_calls
    stamped_releases i log g =
        grind (arith, g log, config_releases, named_releases, fail_releases, patch_releases)

    instance_releases :
        (i : DployInstance) (log : Log)
        → ((l : Log) → kube.get_template l (key i.meta.namespace i.spec.template_ref) ≡ ok tmpl)
        → releases (reconcile_instance kube i log).1 ≡ releases log
    unfolding reconcile_instance persist_meta ensure_meta count_calls
    instance_releases i log g =
        grind (arith, stamped_releases (ensure_meta i).0 log g, delete_releases)

-- While a template's status is the one that its controller wrote with a verdict other than "the
-- chart resolves", a reconcile of an instance of it applies no HelmRelease.
pub reconcile_unproven :
    (kube : Kube) (keeps : KeepsConditions kube) (req : Key) (inst : DployInstance)
    (tmpl : DployTemplate) (src : SourceVerdict) (t : Tally) (created deleted available : ℕ)
    (l log : Log)
    → kube.get_instance log cached req ≡ ok inst
    → ((m : Log)
        → kube.get_template m (key inst.meta.namespace inst.spec.template_ref)
          ≡ ok (with_pool_status kube l tmpl src t created deleted available))
    → src.ok ≡ false
    → releases (reconcile kube req log).1 ≡ releases log
unfolding reconcile count_calls
reconcile_unproven kube keeps req inst tmpl src t created deleted available l log i g broken =
    let written = with_pool_status kube l tmpl src t created deleted available in
    let read =
      template_source_ready-with_pool_status kube keeps l tmpl src t created deleted available in
    ground (
      arith,
      instance_releases kube written (read ∙ broken) inst (Call.get_instance cached req ∷ log) g,
    )
