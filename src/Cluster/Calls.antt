-- ===== src/Cluster/Calls.antt =====
-- The requests, their answers and the record of everything outside the repository.
use dploy.Prelude.{ℕ, Bool, Option, List}
use dploy.Prelude.Int.{ℤ}
use dploy.Prelude.Text.{Text}
use dploy.V1alpha1.Common.{Time, Labels, Condition, OwnerReference}
use dploy.V1alpha1.Template.{DployTemplate}
use dploy.V1alpha1.Instance.{DployInstance}
use dploy.V1alpha1.Claim.{DployInstanceClaim}
use dploy.V1alpha1.Operator.{OperatorConfig}
use dploy.Templating.{TemplateData}

-- An error by what the apierrors predicates tell of it; wrapping keeps that. `at_capacity` is the
-- program's own errTemplateAtCapacity.
pub data Error : Type 0 where
  not_found conflict already_exists at_capacity : Error
  other : Text → Error

pub data Result {ℓ} (A : Type ℓ) : Type ℓ where
  ok : A → Result A
  err : Error → Result A

pub record Key : Type 0 where
  pub namespace : Text
  pub name : Text

abbrev pub key : Text → Text → Key
key n m = record { namespace = n; name = m }

-- Through the informer cache, or straight to the API server.
pub data Reader : Type 0 where
  cached direct : Reader

pub data Selector : Type 0 where
  all_in : Selector
  by_claim_uid by_owner by_template by_pooled_template : Text → Selector
  by_owners : List Text → Selector

-- client.Preconditions of a delete.
pub record Precondition : Type 0 where
  pub uid : Text
  pub resource_version : Option ℕ

-- The kinds of Flux sources, and a source: a GitRepository has a URL, a branch and an interval,
-- a HelmRepository a URL, whether its type is OCI, and an interval.
pub data SourceKind : Type 0 where
  git_repository_kind helm_repository_kind : SourceKind

pub data Source : Type 0 where
  git_repository : Text → Text → ℤ → Source
  helm_repository : Text → Bool → ℤ → Source

-- The spec of a HelmChart.
pub record ChartProbe : Type 0 where
  pub chart : Text
  pub interval : ℤ
  pub source_kind : SourceKind
  pub source_name : Text
  pub version : Text

-- The spec of a HelmRelease.
pub record HelmRelease : Type 0 where
  pub chart : Text
  pub version : Text
  pub value_files : List Text
  pub source_kind : SourceKind
  pub source_name : Text
  pub release_name : Text
  pub target_namespace : Text
  pub storage_namespace : Text
  pub interval : ℤ
  pub install_retries : ℤ
  pub values : Option Text

-- An `apply` is controllerutil.CreateOrUpdate: the object is created with these labels, owner and spec,
-- or brought to them.
pub data Call : Type 0 where
  clock new_uuid : Call
  get_operator_config : Key → Call
  patch_config_status : OperatorConfig → Call
  get_claim get_template : Key → Call
  get_instance : Reader → Key → Call
  list_instances : Reader → Text → Selector → Call
  list_claims : Text → Selector → Call
  list_templates : Text → Call
  update_claim patch_claim_status patch_claim_spec create_claim : DployInstanceClaim → Call
  delete_claim : DployInstanceClaim → Option Precondition → Call
  update_instance patch_instance_status create_instance : DployInstance → Call
  delete_instance : DployInstance → Option Precondition → Call
  patch_template_status : DployTemplate → Call
  apply_source : Key → Labels → OwnerReference → Source → Call
  apply_chart_probe : Key → Labels → OwnerReference → ChartProbe → Call
  apply_namespace : Text → Labels → Call
  delete_namespace : Text → Call
  apply_helm_release : Key → Labels → OwnerReference → HelmRelease → Call
  get_helm_release delete_helm_release : Key → Call

-- Newest first.
abbrev pub Log : Type 0
Log = List Call

-- An answer may depend on the whole log. A write is answered by the object as the server has it.
pub record Kube : Type 0 where
  pub now : Log → Time
  pub new_uuid : Log → Text
  pub get_operator_config : Log → Key → Result OperatorConfig
  pub get_claim : Log → Key → Result DployInstanceClaim
  pub get_template : Log → Key → Result DployTemplate
  pub get_instance : Log → Reader → Key → Result DployInstance
  pub list_instances : Log → Reader → Text → Selector → Result (List DployInstance)
  pub list_claims : Log → Text → Selector → Result (List DployInstanceClaim)
  pub list_templates : Log → Text → Result (List DployTemplate)
  pub write_claim : Log → Call → Result DployInstanceClaim
  pub write_instance : Log → Call → Result DployInstance
  pub write : Log → Call → Result (Unit {0})
  -- A HelmRelease and a chart probe by their conditions, and whether the release is being deleted.
  pub get_helm_release : Log → Key → Result (Bool × List Condition)
  pub apply_chart_probe : Log → Call → Result (List Condition)
  -- apimeta.SetStatusCondition, which stamps the time of a transition, and FindStatusCondition.
  pub set_status_condition : Log → List Condition → Condition → List Condition
  pub find_status_condition : List Condition → Text → Option Condition
  pub is_status_condition_true : List Condition → Text → Bool
  -- controllerutil.SetControllerReference on an object's owner references.
  pub set_controller_reference : OwnerReference → List OwnerReference → Result (List OwnerReference)
  -- equality.Semantic.DeepEqual.
  pub deep_equal : DployInstance → DployInstance → Bool
  -- How often retry.RetryOnConflict with DefaultRetry calls its function again after a conflict.
  pub retries : ℕ
  -- text/template with the functions of sprig: whether a text parses as a template, and what its
  -- execution on the data writes; sigs.k8s.io/yaml's YAMLToJSON.
  pub parses : Text → Bool
  pub execute : Text → TemplateData → Option Text
  pub yaml_to_json : Text → Option Text
  -- time.ParseDuration, and whether encoding/json decodes a text into a map.
  pub parse_duration : Text → Option ℤ
  pub decodes : Text → Bool
  -- The constants of Flux's meta package.
  pub flux_ready : Text
  pub flux_reconciling : Text
  pub flux_progressing : Text
  pub flux_progressing_with_retry : Text
