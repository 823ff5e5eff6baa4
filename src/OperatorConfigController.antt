-- ===== src/OperatorConfigController.antt =====
-- internal/controller/operatorconfig_controller.go.
use dploy.Prelude.{none, if◌then◌else◌}
use dploy.Prelude.Text.{Text, codes, text_eq}
use dploy.V1alpha1.Common.{Condition, is_true, text, Message}
use dploy.V1alpha1.Operator.{OperatorConfig, operator_config_name}
use dploy.Cluster.{not_found, ok, err, Kube, Key, Call, Log, M, ◌>>=◌, done, fail, attempt}
use dploy.Cluster.Requests.{get_operator_config, write}

-- Only the object of the one name counts.
unfoldable pub verdict : Text → Text × Message
verdict name =
    if text_eq name operator_config_name
    then (codes "Active", text (codes "Operator configuration is in effect."))
    else (
      codes "Ignored",
      text (codes "Only the OperatorConfig named \"default\" is honored; this object is ignored."),
    )

module _ (kube : Kube) where
  -- SetStatusCondition stamps the transition, which reads the log.
  unfoldable pub observed : Log → OperatorConfig → OperatorConfig
  observed log cfg =
      let (reason, message) = verdict cfg.meta.name in
      let ready : Condition = record {
        kind = codes "Ready";
        status = is_true;
        reason = reason;
        message = message;
        last_transition_time = none;
        observed_generation = cfg.meta.generation;
      } in
      record cfg {
        status = record {
          observed_generation = cfg.meta.generation;
          conditions = kube.set_status_condition log cfg.status.conditions ready;
        };
      }

  unfoldable pub report : OperatorConfig → M (Unit {0})
  report cfg log = write kube (Call.patch_config_status (observed log cfg)) log

  unfoldable pub reconcile : Key → M (Unit {0})
  reconcile req = do
    r ← attempt (get_operator_config kube req)
    elim r [ err not_found ↦ done | err e ↦ fail e | ok cfg ↦ report cfg ]
