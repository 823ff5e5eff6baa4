-- ===== src/Flux/Health.antt =====
-- When a release counts as failed, and a chart as broken or resolved.
use dploy.Prelude.{◌≡◌, ◌↔◌, true, false, Option, none, some, List, arith, is_empty}
use dploy.Prelude.Text.{Text}
use dploy.V1alpha1.Common.{Condition, is_true, is_false}
use dploy.Cluster.{Kube}
use dploy.Flux.Verdict.{
  failed, is_progressing, translate_helm_release, unknown_source, translate_chart_probe,
}

module _ (kube : Kube) where
  -- Flux has given up: Ready is False, and neither its reason nor a Reconciling condition says
  -- that the work goes on.
  abbrev GaveUp : List Condition → Option Condition → Type 0
  GaveUp conditions none = true ≡ false
  GaveUp conditions (some c) = (c.status ≡ is_false) × (is_progressing kube conditions c ≡ false)

  -- A HelmRelease counts as failed exactly when it has a Ready condition that is False and neither
  -- the reason of it nor a Reconciling condition says that Flux is still at work.
  translate_helm_release_failed :
      (conditions : List Condition)
      → ((translate_helm_release kube conditions).readiness ≡ failed)
        ↔ GaveUp conditions (kube.find_status_condition conditions kube.flux_ready)
  unfolding translate_helm_release
  translate_helm_release_failed conditions = ground arith

  -- A probe's verdict is never both resolved and broken; it is resolved exactly when the probe has
  -- a name and a Ready condition that is True, and broken exactly when that is False.
  translate_chart_probe_lem :
      (name : Text) (conditions : List Condition) (c : Condition)
      → kube.find_status_condition conditions kube.flux_ready ≡ some c
      → is_empty name ≡ false
      → (((translate_chart_probe kube (some (name, conditions))).ok ≡ true) ↔ (c.status ≡ is_true))
        × (((translate_chart_probe kube (some (name, conditions))).broken ≡ true)
            ↔ (c.status ≡ is_false))
  unfolding translate_chart_probe unknown_source
  translate_chart_probe_lem name conditions c e n = ground arith
