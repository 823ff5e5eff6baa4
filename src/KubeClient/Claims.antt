-- ===== src/KubeClient/Claims.antt =====
-- internal/kube/client.go: templates, claims, and the extension of a claim.
use dploy.Prelude.{
  ◌/◌, Bool, true, false, ◌&&◌, ◌||◌, Option, none, some, List, [], select, if◌then◌else◌, is_empty,
}
use dploy.Prelude.Int.{ℤ, pos, minus_one, pos_part, ◌+ℤ◌, ◌-ℤ◌, wrap64, ltb_ℤ, leb_ℤ, eq_ℤ}
use dploy.Prelude.Text.{Text, codes}
use dploy.V1alpha1.Common.{Time, is_zero, new_meta, no_labels, ConnectionType}
use dploy.V1alpha1.Template.{DployTemplate, is_visible}
use dploy.V1alpha1.Instance.{InstancePhase, DployInstance}
use dploy.V1alpha1.Claim.{ClaimPhase, DployInstanceClaim, DployInstanceClaimStatus}
use dploy.Naming.{claim_name}
use dploy.Ttl.{seconds}
use dploy.Cluster.{
  not_found, already_exists, ok, err, Kube, key, direct, all_in, by_owners, Precondition, Call, M,
  ◌>>=◌, ◌>>◌, pure, done, fail, attempt, ask,
}
use dploy.Cluster.Requests.{get_claim, list_instances, list_claims, write_claim, write}

abbrev pub shown : DployTemplate → Bool
shown t = t.spec.enabled && is_visible t

abbrev pub new_claim_status : DployInstanceClaimStatus
new_claim_status = record {
  phase = ClaimPhase.unset;
  instance_ref = [];
  uuid = [];
  connection_url = [];
  connection_type = ConnectionType.unset;
  connection_message = [];
  instance_phase = InstancePhase.unset;
  health = [];
  bound_at = none;
  expires_at = none;
  ttl_seconds = pos 0;
  max_ttl_seconds = pos 0;
  observed_generation = pos 0;
  conditions = [];
}

-- The claim that EnsureClaim creates in a namespace.
unfoldable pub new_claim :
    Text → Text → List (Text × Text) → DployTemplate → Bool → DployInstanceClaim
new_claim namespace owner params tmpl wait_for_pool = record {
  meta = record new_meta {
    name = claim_name owner tmpl.meta.name;
    namespace = namespace;
    labels = record no_labels {
      managed = some (codes "true");
      owner = some owner;
      template = some tmpl.meta.name;
    };
  };
  spec = record {
    template_ref = tmpl.meta.name;
    owner = owner;
    params = params;
    ttl_seconds = pos 0;
    wait_for_pool = wait_for_pool;
  };
  status = new_claim_status;
}

-- Why a claim is not extended: ErrUnlimitedTTL, ErrNotBound and ErrMaxExtends.
pub data Refusal : Type 0 where
  unlimited_ttl not_bound max_extends : Refusal

-- `nil_bound_at` is the dereference of an anchor that the answer to the patch no longer has.
pub data ExtendResult : Type 0 where
  extended : Time → ExtendResult
  refused : Refusal → ExtendResult
  nil_bound_at : ExtendResult

abbrev pub is_expired_phase : ClaimPhase → Bool
is_expired_phase ClaimPhase.expired = true
is_expired_phase _ = false

-- The lifetime that an extension asks for: so much more, up to the ceiling.
unfoldable pub wanted_ttl : DployInstanceClaim → ℤ → ℤ
wanted_ttl claim extend_seconds =
    let max_ttl = claim.status.max_ttl_seconds in
    let wanted = wrap64 (claim.status.ttl_seconds +ℤ extend_seconds) in
    if ltb_ℤ (pos 0) max_ttl && ltb_ℤ max_ttl wanted then max_ttl else wanted

abbrev pub with_ttl : ℤ → DployInstanceClaim → DployInstanceClaim
with_ttl n claim = record claim { spec = record (claim.spec) { ttl_seconds = n } }

abbrev pub deadline : ℤ → Option Time → ExtendResult
deadline wanted none = ExtendResult.nil_bound_at
deadline wanted (some t) = ExtendResult.extended (t +ℤ seconds wanted)

module _ (kube : Kube) (namespace : Text) where
  abbrev pub list_templates : M (List DployTemplate)
  list_templates = ask (Call.list_templates namespace) (λ log. kube.list_templates log namespace)

  -- Ready: the list is for its error alone; that it is of one template at most is not modelled.
  unfoldable pub ready : M (Unit {0})
  ready = do templates ← list_templates; pure tt

  abbrev pub list_all_instances : M (List DployInstance)
  list_all_instances = list_instances kube direct namespace all_in

  unfoldable pub list_visible_templates : M (List DployTemplate)
  list_visible_templates = do all ← list_templates; pure (select shown all)

  -- `none` where there is no claim, or it is being deleted.
  unfoldable pub get_owner_claim : Text → Text → M (Option DployInstanceClaim)
  get_owner_claim owner template_ref = do
    r ← attempt (get_claim kube (key namespace (claim_name owner template_ref)))
    elim r [
      | err not_found ↦ pure none
      | err e ↦ fail e
      | ok claim ↦ pure (if is_zero claim.meta.deletion_timestamp then some claim else none)
    ]

  unfoldable pub list_owned_claims : List Text → M (List DployInstanceClaim)
  list_owned_claims owners =
      if is_empty owners then pure [] else list_claims kube namespace (by_owners owners)

  -- The create, and what another request's claim of that name makes of it.
  unfoldable pub create_claim :
      Text → List (Text × Text) → DployTemplate → Bool → M (Option DployInstanceClaim)
  create_claim owner params tmpl wait_for_pool = do
    r ←
        attempt (
          write_claim kube
            (Call.create_claim (new_claim namespace owner params tmpl wait_for_pool)))
    elim r [
      | ok claim ↦ pure (some claim)
      | err already_exists ↦ get_owner_claim owner tmpl.meta.name
      | err e ↦ fail e
    ]

  -- An expired claim goes, if it is still the one that was read.
  unfoldable pub replace_expired : DployInstanceClaim → M (Unit {0})
  replace_expired existing = do
    let as_read : Precondition = record { uid = existing.meta.uid; resource_version = none }
    r ← attempt (write kube (Call.delete_claim existing (some as_read)))
    elim r [ ok u ↦ done | err not_found ↦ done | err e ↦ fail e ]

  unfoldable pub ensure_claim :
      Text → List (Text × Text) → DployTemplate → Bool → M (Option DployInstanceClaim)
  ensure_claim owner params tmpl wait_for_pool = do
    existing ← get_owner_claim owner tmpl.meta.name
    let create : M (Option DployInstanceClaim) = create_claim owner params tmpl wait_for_pool
    elim existing [
      | none ↦ create
      | some claim ↦
          if is_expired_phase claim.status.phase
          then (replace_expired claim >> create)
          else pure (some claim)
    ]

  unfoldable pub extend_claim : DployInstanceClaim → ℤ → M ExtendResult
  extend_claim claim extend_seconds =
      let granted = claim.status.ttl_seconds in
      let max_ttl = claim.status.max_ttl_seconds in
      let wanted = wanted_ttl claim extend_seconds in
      let patch : M ExtendResult = do
        patched ← write_claim kube (Call.patch_claim_spec (with_ttl wanted claim))
        pure (deadline wanted patched.status.bound_at)
      in if eq_ℤ granted minus_one
        then pure (ExtendResult.refused unlimited_ttl)
        else if is_zero claim.status.bound_at || eq_ℤ granted (pos 0)
        then pure (ExtendResult.refused not_bound)
        else if ltb_ℤ (pos 0) max_ttl && leb_ℤ max_ttl granted
        then pure (ExtendResult.refused max_extends)
        else patch

  unfoldable pub delete_claim : DployInstanceClaim → M (Unit {0})
  delete_claim claim = write kube (Call.delete_claim claim none)

-- ExtendCount, a quotient of two positive numbers.
unfoldable pub extend_count : DployInstanceClaim → ℤ → ℤ → ℤ
extend_count claim base_ttl extend_seconds =
    let granted = claim.status.ttl_seconds in
    if leb_ℤ granted (pos 0) || (leb_ℤ extend_seconds (pos 0) || leb_ℤ granted base_ttl)
    then pos 0
    else pos (pos_part (wrap64 (granted -ℤ base_ttl)) / pos_part extend_seconds)
