-- ===== src/V1alpha1/Common.antt =====
-- Object metadata, conditions, and api/v1alpha1/labels.go and common_types.go. A label map is the
-- seven labels that dploy reads and writes; `none` is an absent key, which Go reads as "".
use dploy.Prelude.{ℕ, Bool, true, false, Option, none, some, List, []}
use dploy.Prelude.Int.{ℤ, pos}
use dploy.Prelude.Text.{Text}

-- A point in time, in nanoseconds since the Unix epoch.
abbrev pub Time : Type 0
Time = ℤ

pub record Labels : Type 0 where
  pub managed : Option Text
  pub owner : Option Text
  pub template : Option Text
  pub instance_id : Option Text
  pub pooled : Option Text
  pub claim : Option Text
  pub claim_uid : Option Text

-- What Go reads from a map, or a pointer to text: "" where there is nothing.
abbrev pub value : Option Text → Text
value none = []
value (some t) = t

-- The annotation dploy.dev/bound-at by what `time.Parse` reads from it.
pub data BoundAtStamp : Type 0 where
  absent unparsable : BoundAtStamp
  parsed : Time → BoundAtStamp

pub data OwnerKind : Type 0 where
  dploy_template dploy_instance dploy_instance_claim : OwnerKind

pub record OwnerReference : Type 0 where
  pub kind : OwnerKind
  pub name : Text
  pub uid : Text
  pub controller : Bool

pub record ObjectMeta : Type 0 where
  pub name : Text
  pub generate_name : Text
  pub namespace : Text
  pub uid : Text
  pub resource_version : ℕ
  pub generation : ℤ
  pub labels : Labels
  pub bound_at_stamp : BoundAtStamp
  pub finalizers : List Text
  pub owner_references : List OwnerReference
  pub creation_timestamp : Option Time
  pub deletion_timestamp : Option Time

abbrev pub is_zero : Option Time → Bool
is_zero none = true
is_zero (some t) = false

pub data ConditionStatus : Type 0 where
  is_true is_false is_unknown : ConditionStatus

-- A message by its format and arguments, before it is printed; `text` is one taken over as it is, and
-- `error_text` the text of an error.
pub data Message : Type 0 where
  text : Text → Message
  template_not_found : Text → Text → Message
  template_disabled : Text → Message
  quota_exceeded : Text → ℤ → Message
  at_capacity : Text → ℤ → Message
  pool_exhausted : Text → Message
  instance_failed : Text → Message
  bound_to : Text → Message
  cannot_reconcile_source cannot_reconcile_probe : Message
  error_text : Message

pub record Condition : Type 0 where
  pub kind : Text
  pub status : ConditionStatus
  pub reason : Text
  pub message : Message
  pub last_transition_time : Option Time
  pub observed_generation : ℤ

pub data EngineType : Type 0 where
  unset argocd flux : EngineType

pub data ConnectionType : Type 0 where
  unset web instructions : ConnectionType

pub data TemplateMethod : Type 0 where
  unset on_demand pool : TemplateMethod

pub data ChartSourceType : Type 0 where
  unset git helm : ChartSourceType

pub record ChartSource : Type 0 where
  pub type : ChartSourceType
  pub repo_url : Text
  pub path : Text
  pub chart : Text
  pub target_revision : Text

pub record TtlSpec : Type 0 where
  pub seconds : ℤ
  pub extend_seconds : ℤ
  pub max_extends : ℤ

abbrev pub no_labels : Labels
no_labels = record {
  managed = none;
  owner = none;
  template = none;
  instance_id = none;
  pooled = none;
  claim = none;
  claim_uid = none;
}

abbrev pub new_meta : ObjectMeta
new_meta = record {
  name = [];
  generate_name = [];
  namespace = [];
  uid = [];
  resource_version = 0;
  generation = pos 0;
  labels = no_labels;
  bound_at_stamp = absent;
  finalizers = [];
  owner_references = [];
  creation_timestamp = none;
  deletion_timestamp = none;
}
