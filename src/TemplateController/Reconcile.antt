-- ===== src/TemplateController/Reconcile.antt =====
-- syncSource, Reconcile and templateForInstance of the template controller.
use dploy.Prelude.{
  ℕ, ◌+◌, ◌*◌, true, false, ◌||◌, not, none, some, List, [], ◌∷◌, length, if◌then◌else◌, is_empty,
}
use dploy.Prelude.Int.{ℤ, pos, pos_part, ◌-ℤ◌, ltb_ℤ}
use dploy.Prelude.Text.{codes}
use dploy.V1alpha1.Common.{
  Condition, is_true, is_false, text, cannot_reconcile_source, cannot_reconcile_probe,
}
use dploy.V1alpha1.Template.{DployTemplate}
use dploy.V1alpha1.Instance.{DployInstance}
use dploy.Effective.{Effective, second}
use dploy.Ttl.{resolve_instance_ttl}
use dploy.Flux.{
  SourceVerdict, unknown_source, chart_ref, ensure_source, ensure_chart_probe,
  translate_chart_probe,
}
use dploy.Cluster.{
  not_found, ok, err, Kube, Key, key, cached, by_template, Call, Log, M, ◌>>=◌, ◌>>◌, pure, fail,
  attempt,
}
use dploy.Cluster.Requests.{get_template, list_instances, resolve_config, write}
use dploy.TemplateController.Pool.{is_pool_active, desired_warm, Tally, tally, fill}
use dploy.TemplateController.Purge.{purge_surplus}

abbrev pub pool_maintenance_interval : ℤ
pool_maintenance_interval = pos (30 * second)

-- The condition that shows the verdict on the chart.
unfoldable pub source_condition : DployTemplate → SourceVerdict → Condition
source_condition tmpl src = record {
  kind = codes "SourceReady";
  status = if src.ok then is_true else is_false;
  reason = src.reason;
  message = src.message;
  last_transition_time = none;
  observed_generation = tmpl.meta.generation;
}

-- The status behind a reconcile that created so many and deleted so many, of those some Available.
-- A condition's transition time is stamped by SetStatusCondition, which reads the log.
unfoldable pub with_pool_status :
    Kube → Log → DployTemplate → SourceVerdict → Tally → ℕ → ℕ → ℕ → DployTemplate
with_pool_status kube log tmpl src t created deleted deleted_available = record tmpl {
  status = record (tmpl.status) {
    conditions = kube.set_status_condition log tmpl.status.conditions (source_condition tmpl src);
    pool_available = pos t.available_ready -ℤ pos deleted_available;
    pool_claimed = pos t.claimed;
    pool_total = pos (t.total + created) -ℤ pos deleted;
    observed_generation = tmpl.meta.generation;
  };
}

module _ (kube : Kube) where
  -- Every failure is "not yet known".
  unfoldable pub sync_source : DployTemplate → Effective → M SourceVerdict
  sync_source tmpl eff =
      let unset : SourceVerdict = record {
        ok = false;
        broken = true;
        reason = codes "ChartNotConfigured";
        message = text (codes "template has neither chart.path nor chart.chart set");
      } in
      let probed : M SourceVerdict = do
        s ← attempt (ensure_source kube tmpl eff)
        elim s [
          | err e ↦ pure (unknown_source (codes "SourcePending") cannot_reconcile_source)
          | ok (kind, name) ↦ do
            p ← attempt (ensure_chart_probe kube tmpl kind name eff)
            elim p [
              | err e ↦ pure (unknown_source (codes "ChartProbePending") cannot_reconcile_probe)
              | ok hc ↦ pure (translate_chart_probe kube (some hc))
            ]
        ]
      in if is_empty (chart_ref tmpl) then pure unset else probed

  -- What is beyond the desired number goes.
  unfoldable pub shrink : DployTemplate → Tally → M (ℕ × ℕ)
  shrink tmpl t =
      let unclaimed_slots = length t.unclaimed in
      let desired = desired_warm tmpl in
      if ltb_ℤ desired (pos unclaimed_slots)
      then purge_surplus kube t.unclaimed (pos_part (pos unclaimed_slots -ℤ desired))
      else pure (0, 0)

  -- The requeue time in nanoseconds; 0 asks for none.
  unfoldable pub reconcile_template : DployTemplate → M ℤ
  reconcile_template tmpl = do
    eff ← resolve_config kube
    src ← sync_source tmpl eff
    items ← list_instances kube cached tmpl.meta.namespace (by_template tmpl.meta.name)
    let t = tally items
    created ← fill kube tmpl src.broken (resolve_instance_ttl tmpl eff) t
    (deleted, deleted_available) ← shrink tmpl t
    (λ log.
        write kube
          (Call.patch_template_status
            (with_pool_status kube log tmpl src t created deleted deleted_available))
          log)
    pure (if is_pool_active tmpl || not src.ok then pool_maintenance_interval else pos 0)

  unfoldable pub reconcile : Key → M ℤ
  reconcile req = do
    r ← attempt (get_template kube req)
    elim r [ err not_found ↦ pure (pos 0) | err e ↦ fail e | ok tmpl ↦ reconcile_template tmpl ]

-- The template that an instance's event is routed to.
unfoldable pub template_for_instance : DployInstance → List Key
template_for_instance inst =
    if is_empty inst.spec.template_ref
    then []
    else key inst.meta.namespace inst.spec.template_ref ∷ []
