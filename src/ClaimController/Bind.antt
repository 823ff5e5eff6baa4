-- ===== src/ClaimController/Bind.antt =====
-- Handing a claim its instance: bind, acquirePooled, isClaimable, createOnDemand and hashIndex.
use Prim.Native.Nat.{min}
use dploy.Prelude.{
  ℕ, zero, suc, ◌+◌, ◌*◌, ◌/◌, ◌%◌, ◌^◌, bit_xor, Bool, true, false, ◌&&◌, Option, none, some, List,
  [], ◌∷◌, ◌++◌, length, select, is_empty, get_elem?, if◌then◌else◌,
}
use dploy.Prelude.Int.{ℤ}
use dploy.Prelude.Text.{Text, codes}
use dploy.V1alpha1.Common.{Time, value, is_zero, new_meta, no_labels, TemplateMethod}
use dploy.V1alpha1.Template.{DployTemplate}
use dploy.V1alpha1.Instance.{InstancePhase, DployInstance, new_status}
use dploy.V1alpha1.Claim.{DployInstanceClaim}
use dploy.Naming.{sanitize, truncate}
use dploy.Ttl.{stamp_bound_at}
use dploy.Cluster.{
  not_found, conflict, at_capacity, ok, err, Kube, cached, by_pooled_template, Call, M, ◌>>=◌, pure,
  fail, attempt,
}
use dploy.Cluster.Requests.{list_instances, write_instance, set_controller_reference}
use dploy.ClaimController.Outcome.{owner_of}
use dploy.ClaimController.Capacity.{over_max_size}

abbrev pub claim_bind_retries : ℕ
claim_bind_retries = 8

abbrev pub is_available : InstancePhase → Bool
is_available InstancePhase.available = true
is_available _ = false

unfoldable pub is_claimable : DployInstance → Bool
is_claimable inst =
    is_zero inst.meta.deletion_timestamp
    && (is_empty inst.spec.owner
        && (is_empty (value inst.meta.labels.claim_uid) && is_available inst.status.phase))

-- hash/fnv's New32a over the bytes of a text.
unfoldable pub fnv32a : ℕ → Text → ℕ
fnv32a h [] = h
fnv32a h (c ∷ s) = fnv32a (bit_xor h c * 16777619 % 2 ^ 32) s

unfoldable pub hash_index : Text → ℕ → ℕ
hash_index uid zero = 0
hash_index uid (suc n) = fnv32a 2166136261 uid / 2 % suc n

-- The candidate as the claim would have it.
unfoldable pub bound_copy : DployInstanceClaim → Time → DployInstance → DployInstance
bound_copy claim bound_at cand =
    stamp_bound_at
      (record cand {
        meta = record (cand.meta) {
          labels = record (cand.meta.labels) {
            claim_uid = some claim.meta.uid;
            claim = some claim.meta.name;
          };
        };
      })
      bound_at

-- The instance that createOnDemand writes, but for its owner.
unfoldable pub on_demand_instance :
    DployInstanceClaim → DployTemplate → Time → ℤ → Option Time → DployInstance
on_demand_instance claim tmpl bound_at ttl expires_at =
    stamp_bound_at
      (record {
        meta = record new_meta {
          namespace = claim.meta.namespace;
          generate_name =
              truncate (sanitize claim.spec.owner ++ (codes "-" ++ sanitize tmpl.meta.name)) 200
              ++ codes "-";
          labels = record no_labels {
            managed = some (codes "true");
            template = some tmpl.meta.name;
            owner = some (sanitize claim.spec.owner);
            claim = some claim.meta.name;
            claim_uid = some claim.meta.uid;
          };
        };
        spec = record {
          template_ref = tmpl.meta.name;
          owner = claim.spec.owner;
          params = claim.spec.params;
          pooled = false;
          ttl_seconds = ttl;
          expires_at = expires_at;
        };
        status = new_status;
      })
      bound_at

module _ (kube : Kube) where
  -- The loop of acquirePooled from attempt `i` on, with as many attempts left.
  unfoldable pub try_candidates :
      DployInstanceClaim → Time → List DployInstance → ℕ → ℕ → ℕ → M (Option DployInstance)
  try_candidates claim bound_at candidates start i zero = pure none
  try_candidates claim bound_at candidates start i (suc left) =
      elim (get_elem? candidates ((start + i) % length candidates)) [
        | none ↦ pure none
        | some cand ↦ do
          r ← attempt (write_instance kube (Call.update_instance (bound_copy claim bound_at cand)))
          elim r [
            | ok won ↦ pure (some won)
            | err conflict ↦ try_candidates claim bound_at candidates start (i + 1) left
            | err not_found ↦ try_candidates claim bound_at candidates start (i + 1) left
            | err e ↦ fail e
          ]
      ]

  unfoldable pub acquire_pooled :
      DployInstanceClaim → DployTemplate → Time → M (Option DployInstance)
  acquire_pooled claim tmpl bound_at = do
    items ← list_instances kube cached claim.meta.namespace (by_pooled_template tmpl.meta.name)
    let candidates = select is_claimable items
    try_candidates claim bound_at candidates (hash_index claim.meta.uid (length candidates)) 0
        (min (length candidates) claim_bind_retries)

  unfoldable pub create_on_demand :
      DployInstanceClaim → DployTemplate → Time → ℤ → Option Time → M DployInstance
  create_on_demand claim tmpl bound_at ttl expires_at = do
    let inst = on_demand_instance claim tmpl bound_at ttl expires_at
    refs ← set_controller_reference kube (owner_of claim) []
    write_instance kube (
        Call.create_instance
          (record inst { meta = record (inst.meta) { owner_references = refs } }))

  -- A new instance for a pooled template, under its cap.
  unfoldable pub provision_within_cap :
      DployInstanceClaim → DployTemplate → Time → ℤ → Option Time → M (Option DployInstance)
  provision_within_cap claim tmpl bound_at ttl expires_at = do
    over ← over_max_size kube tmpl
    let create : M (Option DployInstance) = do
      inst ← create_on_demand claim tmpl bound_at ttl expires_at
      pure (some inst)
    if over then fail at_capacity else create

  -- `none` is "the pool is empty, and the caller asked to wait".
  unfoldable pub bind :
      DployInstanceClaim → DployTemplate → Time → ℤ → Option Time → M (Option DployInstance)
  bind claim tmpl bound_at ttl expires_at = elim tmpl.spec.method [
    | TemplateMethod.pool ↦ do
      won ← acquire_pooled claim tmpl bound_at
      elim won [
        | some inst ↦ pure (some inst)
        | none ↦
            if claim.spec.wait_for_pool
            then pure none
            else provision_within_cap claim tmpl bound_at ttl expires_at
      ]
    | _ ↦ do inst ← create_on_demand claim tmpl bound_at ttl expires_at; pure (some inst)
  ]
