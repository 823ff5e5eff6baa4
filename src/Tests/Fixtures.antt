-- ===== src/Tests/Fixtures.antt =====
-- Concrete objects, and an API server with fixed answers.
use dploy.Prelude.{ℕ, true, false, Option, none, some, List, [], ◌∷◌}
use dploy.Prelude.Int.{pos}
use dploy.Prelude.Text.{Text, codes}
use dploy.V1alpha1.Common.{
  Time, new_meta, no_labels, ConnectionType, EngineType, TemplateMethod, ChartSourceType,
}
use dploy.V1alpha1.Template.{DployTemplate}
use dploy.V1alpha1.Instance.{InstancePhase, DployInstance, new_status}
use dploy.V1alpha1.Claim.{ClaimPhase, DployInstanceClaim}
use dploy.V1alpha1.Operator.{OperatorConfig}
use dploy.Cluster.{Kube, Result, ok, err, not_found, by_claim_uid}

-- A pool of two with at most five members, a day of lifetime and three extensions of two hours.
abbrev pub lab : DployTemplate
lab = record {
  meta = record new_meta { name = codes "lab"; namespace = codes "ctf"; uid = codes "t1" };
  spec = record {
    display_name = codes "Lab";
    description = [];
    icon = [];
    category = [];
    enabled = true;
    visible = none;
    owner_claim = [];
    method = TemplateMethod.pool;
    pool = some (record { size = pos 2; max_size = pos 5; recycle = none });
    engine = EngineType.unset;
    chart = record {
      type = ChartSourceType.git;
      repo_url = codes "https://git.example/charts";
      path = codes "lab";
      chart = [];
      target_revision = codes "main";
    };
    values_template = [];
    value_files = [];
    connection_url_template = [];
    connection_type = ConnectionType.unset;
    connection_message_template = [];
    ttl = some (record { seconds = pos 86400; extend_seconds = pos 7200; max_extends = pos 3 });
    max_instances_per_user = some (pos 1);
    parameters = [];
  };
  status = record {
    pool_available = pos 0;
    pool_claimed = pos 0;
    pool_total = pos 0;
    observed_generation = pos 0;
    conditions = [];
  };
}

-- A claim of alice's that nothing has reconciled yet.
abbrev pub request : DployInstanceClaim
request = record {
  meta = record new_meta {
    name = codes "alice-lab";
    namespace = codes "ctf";
    uid = codes "c1";
    generation = pos 1;
    labels = record no_labels {
      managed = some (codes "true");
      template = some (codes "lab");
      owner = some (codes "alice");
    };
  };
  spec = record {
    template_ref = codes "lab";
    owner = codes "alice";
    params = [];
    ttl_seconds = pos 0;
    wait_for_pool = false;
  };
  status = record {
    phase = ClaimPhase.unset;
    instance_ref = [];
    uuid = [];
    connection_url = [];
    connection_type = ConnectionType.unset;
    connection_message = [];
    instance_phase = InstancePhase.unset;
    health = [];
    bound_at = none;
    expires_at = none;
    ttl_seconds = pos 0;
    max_ttl_seconds = pos 0;
    observed_generation = pos 0;
    conditions = [];
  };
}

-- The claim with its phase, expiry and observed generation.
abbrev pub request_in : ClaimPhase → Option Time → DployInstanceClaim
request_in phase expires_at = record request {
  status = record (request.status) {
    phase = phase;
    expires_at = expires_at;
    observed_generation = pos 1;
  };
}

-- A free pool member by its name and the second of its creation.
abbrev pub warm : Text → ℕ → DployInstance
warm name created = record {
  meta = record new_meta {
    name = name;
    namespace = codes "ctf";
    uid = name;
    creation_timestamp = some (pos created);
  };
  spec = record {
    template_ref = codes "lab";
    owner = [];
    params = [];
    pooled = true;
    ttl_seconds = pos 86400;
    expires_at = none;
  };
  status = record new_status { phase = InstancePhase.available };
}

-- Two pool members, the younger first.
abbrev pub two_warm : List DployInstance
two_warm = warm (codes "lab-b") 20 ∷ warm (codes "lab-a") 10 ∷ []

-- An operator's configuration is not there.
abbrev pub no_config : Result OperatorConfig
no_config = err not_found

-- A server that answers every read with these objects and every write with success.
abbrev pub server : DployInstanceClaim → List DployInstance → List DployInstance → Kube
server claim held listed = record {
  now = λ log. pos 1000;
  new_uuid = λ log. codes "0a1b2c3d";
  get_operator_config = λ log k. no_config;
  get_claim = λ log k. ok claim;
  get_template = λ log k. ok lab;
  get_instance = λ log rd k. ok (warm k.name 10);
  list_instances = λ log rd ns s. elim s [ by_claim_uid u ↦ ok held | _ ↦ ok listed ];
  list_claims = λ log ns s. ok (claim ∷ []);
  list_templates = λ log ns. ok (lab ∷ []);
  write_claim = λ log c. ok claim;
  write_instance = λ log c. ok (warm (codes "lab-a") 10);
  write = λ log c. ok tt;
  get_helm_release = λ log k. err not_found;
  apply_chart_probe = λ log c. ok [];
  set_status_condition = λ log cs c. c ∷ cs;
  find_status_condition = λ cs t. none;
  is_status_condition_true = λ cs t. false;
  set_controller_reference = λ o refs. ok (o ∷ refs);
  deep_equal = λ a b. false;
  retries = 4;
  parses = λ t. true;
  execute = λ t d. some t;
  yaml_to_json = λ t. some t;
  parse_duration = λ t. none;
  decodes = λ t. true;
  flux_ready = codes "Ready";
  flux_reconciling = codes "Reconciling";
  flux_progressing = codes "Progressing";
  flux_progressing_with_retry = codes "ProgressingWithRetry";
}
