-- ===== src/Handlers/Health.antt =====
-- internal/handlers/health.go, and an endpoint without a handler.
use dploy.Prelude.Text.{codes}
use dploy.V1alpha1.Common.{text}
use dploy.KubeClient.{ready}
use dploy.Configuration.{Config}
use dploy.Cluster.{Kube, ok, err}
use dploy.Handlers.Responses.{health, ui_config, problem}
use dploy.Handlers.Context.{H, ◌>>=◌, GoError, calling, json, send}

unfoldable pub get_health : H GoError
get_health = json (health (codes "ok"))

unfoldable pub get_ready : Kube → Config → H GoError
get_ready kube config = do
  r ← calling (ready kube config.namespace)
  elim r [
    | err e ↦ send 503 (problem (text (codes "Service not ready")))
    | ok u ↦ json (health (codes "ready"))
  ]

-- The endpoint /api/ui-config of cmd/api/main.go.
unfoldable pub get_ui_config : Config → H GoError
get_ui_config config = json (
    ui_config (record {
      catalog_enabled = config.catalog_enabled;
      instances_enabled = config.instances_list_enabled;
      manager_enabled = config.manager_enabled;
    }))
