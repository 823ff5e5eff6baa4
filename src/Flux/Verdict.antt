-- ===== src/Flux/Verdict.antt =====
-- What the operator reads from Flux's conditions: translateHelmRelease, isProgressing,
-- translateChartProbe and templateSourceReady.
use dploy.Prelude.{
  Bool, true, false, ◌||◌, Option, none, some, List, [], ◌∷◌, if◌then◌else◌, is_empty,
}
use dploy.Prelude.Text.{Text, codes, text_eq}
use dploy.V1alpha1.Common.{Condition, ConditionStatus, is_true, is_false, is_unknown, Message, text}
use dploy.V1alpha1.Template.{DployTemplate}
use dploy.Naming.{first_non_empty}
use dploy.Cluster.{Kube}

pub data Readiness : Type 0 where
  in_progress ready failed : Readiness

pub record HelmReleaseState : Type 0 where
  pub readiness : Readiness
  pub status : ConditionStatus
  pub reason : Text
  pub message : Message
  pub health : Text

-- firstNonEmpty on a message: of the formats only `text` can print as nothing.
unfoldable pub message_or : Message → Text → Message
message_or (text t) d = text (first_non_empty (t ∷ d ∷ []))
message_or m d = m

abbrev pub reason_or : Text → Text → Text
reason_or r d = first_non_empty (r ∷ d ∷ [])

-- What the template concluded about its chart; `ok` and `broken` are both false while the answer is
-- unknown.
pub record SourceVerdict : Type 0 where
  pub ok : Bool
  pub broken : Bool
  pub reason : Text
  pub message : Message

unfoldable pub unknown_source : Text → Message → SourceVerdict
unknown_source reason message = record {
  ok = false;
  broken = false;
  reason = reason;
  message = message;
}

module _ (kube : Kube) where
  -- The conditions of the release, and its Ready condition.
  unfoldable pub is_progressing : List Condition → Condition → Bool
  is_progressing conditions c =
      text_eq c.reason kube.flux_progressing
      || (text_eq c.reason kube.flux_progressing_with_retry
          || kube.is_status_condition_true conditions kube.flux_reconciling)

  -- A HelmRelease by its conditions.
  unfoldable pub translate_helm_release : List Condition → HelmReleaseState
  translate_helm_release conditions = elim (kube.find_status_condition conditions kube.flux_ready) [
    | none ↦ record {
      readiness = in_progress;
      status = is_unknown;
      reason = codes "HelmReleasePending";
      message = text (codes "HelmRelease has not been reconciled by helm-controller yet.");
      health = codes "Progressing";
    }
    | some c ↦
        let reason = reason_or c.reason (codes "HelmReleaseProgressing") in
        let message = message_or c.message (codes "HelmRelease reported no message.") in
        let waiting : HelmReleaseState = record {
          readiness = in_progress;
          status = is_unknown;
          reason = reason;
          message = message;
          health = codes "Progressing";
        } in
        elim c.status [
          | is_true ↦ record {
            readiness = ready;
            status = is_true;
            reason = reason;
            message = message;
            health = codes "Healthy";
          }
          | is_false ↦ if is_progressing conditions c then waiting else record {
            readiness = failed;
            status = is_false;
            reason = reason;
            message = message;
            health = codes "Degraded";
          }
          | is_unknown ↦ waiting
        ]
  ]

  -- A chart probe by its name and its conditions; `none` is the nil pointer.
  unfoldable pub translate_chart_probe : Option (Text × List Condition) → SourceVerdict
  translate_chart_probe none =
      unknown_source (codes "ChartProbePending")
        (text (codes "chart probe has not been created yet"))
  translate_chart_probe (some (name, conditions)) =
      let unmade =
        unknown_source (codes "ChartProbePending")
          (text (codes "chart probe has not been created yet")) in
      let read : SourceVerdict = elim (kube.find_status_condition conditions kube.flux_ready) [
        | none ↦
            unknown_source (codes "ChartProbePending")
              (text (codes "source-controller has not reconciled the chart probe yet"))
        | some c ↦ elim c.status [
          | is_true ↦ record {
            ok = true;
            broken = false;
            reason = reason_or c.reason (codes "ChartResolved");
            message = message_or c.message (codes "chart reference resolves");
          }
          | is_unknown ↦
              unknown_source (reason_or c.reason (codes "ChartProbePending"))
                (message_or c.message (codes "chart resolution still in progress"))
          | is_false ↦ record {
            ok = false;
            broken = true;
            reason = reason_or c.reason (codes "ChartNotResolved");
            message = message_or c.message (codes "chart reference does not resolve");
          }
        ]
      ] in
      if is_empty name then unmade else read

  -- The verdict that a template's status shows, with its reason and message.
  unfoldable pub template_source_ready : DployTemplate → Bool × (Text × Message)
  template_source_ready tmpl =
      elim (kube.find_status_condition tmpl.status.conditions (codes "SourceReady")) [
        | none ↦ (
          false,
          (
            codes "SourceNotVerified",
            text (codes "the template has not verified its chart source yet"),
          ),
        )
        | some c ↦
            let refused : Bool × (Text × Message) = (
              false,
              (
                reason_or c.reason (codes "SourceNotReady"),
                message_or c.message (codes "the template's chart source does not resolve"),
              ),
            ) in
            elim c.status [
              | is_true ↦ (true, (reason_or c.reason (codes "SourceReady"), c.message))
              | _ ↦ refused
            ]
      ]
