-- ===== src/InstanceController/Present.antt =====
-- What an instance shows and what its chart is given: Render, buildData and the middle of Reconcile,
-- which calls nothing but the template engine.
use dploy.Prelude.{Option, none, some, [], ◌∷◌, ◌++◌, is_empty, if◌then◌else◌}
use dploy.Prelude.Text.{Text, codes, trim_space}
use dploy.V1alpha1.Common.{EngineType, ConnectionType}
use dploy.V1alpha1.Template.{DployTemplate}
use dploy.V1alpha1.Instance.{DployInstance}
use dploy.Effective.{Effective, connection_or}
use dploy.Naming.{sanitize, workload_namespace, default_host, first_non_empty}
use dploy.Templating.{TemplateData}
use dploy.Cluster.{Kube}

-- The owner and the parameters of a pooled instance are withheld.
unfoldable pub build_data : DployInstance → DployTemplate → Effective → Text → TemplateData
build_data inst tmpl eff target_namespace = record {
  owner = sanitize (if inst.spec.pooled then [] else inst.spec.owner);
  uuid = inst.status.uuid;
  base_domain = eff.base_domain;
  host = default_host inst.spec.template_ref inst.status.uuid eff.base_domain;
  url = [];
  connection_url = [];
  namespace = target_namespace;
  template = tmpl;
  params = if inst.spec.pooled then [] else inst.spec.params;
  values = eff.values;
}

abbrev pub or_web : ConnectionType → ConnectionType
or_web ConnectionType.unset = ConnectionType.web
or_web c = c

-- The namespace of the status, once it is there.
unfoldable pub target_namespace_of : DployInstance → Text
target_namespace_of inst =
    if is_empty inst.status.namespace
    then workload_namespace inst.spec.owner inst.spec.template_ref inst.status.uuid
    else inst.status.namespace

-- The instance with its connection and the JSON of its values, or as it was when a template failed,
-- with the reason.
pub data Presentation : Type 0 where
  presented : DployInstance → Text → Presentation
  unpresentable : DployInstance → Text → Presentation

-- The rendered values, or the reason why there are none.
pub data Values : Type 0 where
  json : Text → Values
  bad : Text → Values

module _ (kube : Kube) where
  -- templating.Render; `none` where the text does not parse or its execution fails.
  unfoldable pub render : Text → TemplateData → Option Text
  render t d = if kube.parses t then kube.execute t d else none

  -- A text or, where a template is set, what it renders, trimmed.
  unfoldable pub render_or : Text → Text → TemplateData → Option Text
  render_or fallback t d =
      if is_empty t
      then some fallback
      else elim (render t d) [ none ↦ none | some out ↦ some (trim_space out) ]

  unfoldable pub resolve_url : DployTemplate → Effective → TemplateData → Option Text
  resolve_url tmpl eff d =
      render_or (codes "https://" ++ d.host)
        (first_non_empty (tmpl.spec.connection_url_template ∷ eff.connection_url_template ∷ [])) d

  -- The message of an instructions connection; others have none.
  unfoldable pub resolve_connection :
      ConnectionType → DployTemplate → Effective → Text → TemplateData → Option Text
  resolve_connection ConnectionType.instructions tmpl eff url d =
      render_or url
        (first_non_empty
          (tmpl.spec.connection_message_template ∷ eff.connection_message_template ∷ []))
        d
  resolve_connection c tmpl eff url d = some []

  unfoldable pub render_values : DployTemplate → TemplateData → Values
  render_values tmpl d =
      let rendered : Values = elim (render tmpl.spec.values_template d) [
        | none ↦ bad (codes "ValuesTemplateError")
        | some yaml ↦ elim (kube.yaml_to_json yaml) [
          | none ↦ bad (codes "ValuesYAMLError")
          | some j ↦ json j
        ]
      ] in
      if is_empty (trim_space tmpl.spec.values_template) then json [] else rendered

  -- From the pinning of the namespace to the rendered values.
  unfoldable pub present : DployInstance → DployTemplate → Effective → Presentation
  present inst tmpl eff =
      let target = target_namespace_of inst in
      let placed = record inst {
        status = record (inst.status) { namespace = target; engine = EngineType.flux };
      } in
      let d = build_data placed tmpl eff target in
      let kind = or_web (connection_or tmpl.spec.connection_type eff.default_connection_type) in
      elim (resolve_url tmpl eff d) [
        | none ↦ unpresentable placed (codes "ConnectionURLTemplateError")
        | some url ↦
            let d' : TemplateData = record d { url = url; connection_url = url } in
            let linked : DployInstance = record placed {
              status = record (placed.status) {
                url = url;
                connection_type = kind;
                connection_message = [];
              };
            } in
            elim (resolve_connection kind tmpl eff url d') [
              | none ↦ unpresentable linked (codes "ConnectionMessageTemplateError")
              | some message ↦
                  let told : DployInstance = record linked {
                    status = record (linked.status) { connection_message = message };
                  } in
                  elim (render_values tmpl d') [
                    | bad reason ↦ unpresentable told reason
                    | json j ↦ presented told j
                  ]
            ]
      ]
