-- ===== src/ClaimController/Capacity.antt =====
-- A template's maximum size: maxTemplateSize, templateInstances, overMaxSize and evictIfOverMaxSize.
use dploy.Prelude.{Bool, false, none, some, List, length, if◌then◌else◌}
use dploy.Prelude.Int.{ℤ, pos, leb_ℤ}
use dploy.Prelude.Text.{Text}
use dploy.V1alpha1.Common.{TemplateMethod}
use dploy.V1alpha1.Template.{DployTemplate}
use dploy.V1alpha1.Instance.{DployInstance}
use dploy.Cluster.{Kube, direct, by_template, M, ◌>>=◌, pure}
use dploy.Cluster.Requests.{list_instances}
use dploy.ClaimController.Quota.{live_oldest_first, beyond_limit, evict}

-- Zero where there is no cap.
unfoldable pub max_template_size : DployTemplate → ℤ
max_template_size tmpl = elim tmpl.spec.method [
  | TemplateMethod.pool ↦ elim tmpl.spec.pool [ none ↦ pos 0 | some p ↦ p.max_size ]
  | _ ↦ pos 0
]

module _ (kube : Kube) where
  unfoldable pub template_instances : Text → Text → M (List DployInstance)
  template_instances namespace template = do
    items ← list_instances kube direct namespace (by_template template)
    pure (live_oldest_first items)

  unfoldable pub over_max_size : DployTemplate → M Bool
  over_max_size tmpl =
      let limit = max_template_size tmpl in
      let counted : M Bool = do
        live ← template_instances tmpl.meta.namespace tmpl.meta.name
        pure (leb_ℤ limit (pos (length live)))
      in if leb_ℤ limit (pos 0) then pure false else counted

  unfoldable pub evict_if_over_max_size : DployTemplate → DployInstance → M (Bool × ℤ)
  evict_if_over_max_size tmpl inst =
      let limit = max_template_size tmpl in
      let ranked : M (Bool × ℤ) = do
        live ← template_instances tmpl.meta.namespace tmpl.meta.name
        evict kube (beyond_limit inst.meta.name limit live) limit inst
      in if leb_ℤ limit (pos 0) then pure (false, pos 0) else ranked
