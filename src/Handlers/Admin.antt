-- ===== src/Handlers/Admin.antt =====
-- internal/handlers/admin.go and me.go, and internal/auth/admin.go.
use dploy.Prelude.{
  Bool, true, false, ◌||◌, Option, none, some, List, [], ◌∷◌, map, length, is_empty, if◌then◌else◌,
}
use dploy.Prelude.Int.{pos, minus_one, eq_ℤ}
use dploy.Prelude.Text.{Text, codes, text_eq, text_lt}
use dploy.V1alpha1.Common.{Time, value, text, TemplateMethod, ChartSourceType}
use dploy.V1alpha1.Template.{DployTemplate, is_visible}
use dploy.V1alpha1.Instance.{InstancePhase, DployInstance}
use dploy.KubeClient.{ClaimValue, resolve_owner, list_templates, list_all_instances}
use dploy.Configuration.{Config}
use dploy.Sorting.{sort_by}
use dploy.Cluster.{Kube, ok, err}
use dploy.Handlers.Responses.{problem, AdminInstanceRow, AdminTemplateRow, me, instances, templates}
use dploy.Handlers.Context.{Request, H, ◌>>=◌, GoError, calling, json, send}
use dploy.Handlers.Parameters.{claims_map}
use dploy.Handlers.Status.{text_of}
use dploy.Handlers.Run.{internal_error}

abbrev bool_eq : Bool → Bool → Bool
bool_eq true b = b
bool_eq false true = false
bool_eq false false = true

-- An element that is no string counts for nothing.
unfoldable pub any_is : Text → List (Option Text) → Bool
any_is t [] = false
any_is t (none ∷ es) = any_is t es
any_is t (some s ∷ es) = text_eq s t || any_is t es

unfoldable pub one_is : Text → List Text → Bool
one_is t [] = false
one_is t (s ∷ ss) = text_eq s t || one_is t ss

-- A value of another shape is no admin's.
unfoldable pub admin_value_is : Text → ClaimValue → Bool
admin_value_is t (ClaimValue.bool b) = bool_eq b (text_eq t (codes "true"))
admin_value_is t (ClaimValue.string s) = text_eq s t
admin_value_is t (ClaimValue.anys es) = any_is t es
admin_value_is t (ClaimValue.strings ss) = one_is t ss
admin_value_is t _ = false

unfoldable pub is_admin : Option (Text → ClaimValue) → Text → Text → Bool
is_admin none claim_name t = false
is_admin (some claims) claim_name t =
    if is_empty claim_name then false else admin_value_is t (claims claim_name)

-- AdminMiddleware, in front of a handler.
unfoldable pub admin_middleware : Config → Request → H GoError → H GoError
admin_middleware config req next =
    if is_admin req.claims config.admin_claim config.admin_value
    then next
    else send 403 (problem (text (codes "admin required")))

-- The gate of cmd/api/main.go in front of the admin routes.
unfoldable pub manager_gate : Config → H GoError → H GoError
manager_gate config next =
    if config.manager_enabled then next else send 404 (problem (text (codes "manager disabled")))

unfoldable pub get_me : Config → Request → H GoError
get_me config req = json (
    me (record {
      username = text_of req.username;
      owner = (resolve_owner (claims_map req) [] (text_of req.username)).0;
      admin = is_admin req.claims config.admin_claim config.admin_value;
    }))

-- By template, then by name.
unfoldable pub instance_before : DployInstance → DployInstance → Bool
instance_before i j =
    if text_eq i.spec.template_ref j.spec.template_ref
    then text_lt i.meta.name j.meta.name
    else text_lt i.spec.template_ref j.spec.template_ref

unfoldable pub template_before : DployTemplate → DployTemplate → Bool
template_before t u = text_lt t.meta.name u.meta.name

unfoldable pub instance_expires_at : DployInstance → Option Time
instance_expires_at inst = elim inst.status.expires_at [
  | some t ↦ some t
  | none ↦ inst.spec.expires_at
]

abbrev pub or_pending : InstancePhase → InstancePhase
or_pending InstancePhase.unset = InstancePhase.pending
or_pending p = p

abbrev pub or_on_demand : TemplateMethod → TemplateMethod
or_on_demand TemplateMethod.unset = TemplateMethod.on_demand
or_on_demand p = p

abbrev pub is_git : ChartSourceType → Bool
is_git ChartSourceType.git = true
is_git _ = false

unfoldable pub instance_row : DployInstance → AdminInstanceRow
instance_row inst = record {
  name = inst.meta.name;
  template = inst.spec.template_ref;
  owner = inst.spec.owner;
  phase = or_pending inst.status.phase;
  url = inst.status.url;
  expires_at = instance_expires_at inst;
  created_at = inst.meta.creation_timestamp;
  namespace = inst.status.namespace;
  claim = value inst.meta.labels.claim;
  uuid = inst.status.uuid;
  is_unlimited = eq_ℤ inst.spec.ttl_seconds minus_one;
}

unfoldable pub template_row : DployTemplate → AdminTemplateRow
template_row t = record {
  name = t.meta.name;
  display_name = t.spec.display_name;
  method = or_on_demand t.spec.method;
  enabled = t.spec.enabled;
  visible = is_visible t;
  pool_size = elim t.spec.pool [ none ↦ pos 0 | some p ↦ p.size ];
  available = t.status.pool_available;
  claimed = t.status.pool_claimed;
  chart_type = t.spec.chart.type;
  chart_repo = t.spec.chart.repo_url;
  chart_ref =
      if is_git t.spec.chart.type || is_empty t.spec.chart.chart
      then t.spec.chart.path
      else t.spec.chart.chart;
  revision = t.spec.chart.target_revision;
  created_at = t.meta.creation_timestamp;
}

module _ (kube : Kube) (config : Config) where
  unfoldable pub list_all_instances_answer : H GoError
  list_all_instances_answer = do
    r ← calling (list_all_instances kube config.namespace)
    elim r [
      | err e ↦ internal_error
      | ok is ↦ json (instances (map instance_row (sort_by instance_before is)) (length is))
    ]

  unfoldable pub list_all_templates : H GoError
  list_all_templates = do
    r ← calling (list_templates kube config.namespace)
    elim r [
      | err e ↦ internal_error
      | ok ts ↦ json (templates (map template_row (sort_by template_before ts)) (length ts))
    ]

  -- The routes /api/admin/instances and /api/admin/templates.
  unfoldable pub admin_instances_route : Request → H GoError
  admin_instances_route req =
      manager_gate config (admin_middleware config req list_all_instances_answer)

  unfoldable pub admin_templates_route : Request → H GoError
  admin_templates_route req = manager_gate config (admin_middleware config req list_all_templates)
