-- ===== src/TemplateController/Pool.antt =====
-- The count of a template's instances and the fill loop: isPoolActive, desiredWarm,
-- createPoolInstance and the first half of Reconcile.
use dploy.Prelude.{
  ℕ, zero, suc, ◌+◌, Bool, true, false, ◌&&◌, Option, none, some, List, [], ◌∷◌, ◌++◌, length,
  if◌then◌else◌, is_empty,
}
use dploy.Prelude.Int.{ℤ, pos, pos_part, ltb_ℤ, leb_ℤ}
use dploy.Prelude.Text.{codes}
use dploy.V1alpha1.Common.{is_zero, new_meta, no_labels, TemplateMethod}
use dploy.V1alpha1.Template.{PoolSpec, DployTemplate}
use dploy.V1alpha1.Instance.{InstancePhase, DployInstance, new_status}
use dploy.Cluster.{already_exists, ok, err, Kube, Call, M, ◌>>=◌, ◌>>◌, pure, done, fail, attempt}
use dploy.Cluster.Requests.{write_instance, set_controller_reference}
use dploy.Flux.{template_owner}

abbrev pub is_pool : TemplateMethod → Bool
is_pool TemplateMethod.pool = true
is_pool _ = false

-- Whether a pool is set whose size is positive, and the numbers of a pool.
abbrev pub has_size : Option PoolSpec → Bool
has_size none = false
has_size (some p) = ltb_ℤ (pos 0) p.size

unfoldable pub is_pool_active : DployTemplate → Bool
is_pool_active tmpl = tmpl.spec.enabled && (is_pool tmpl.spec.method && has_size tmpl.spec.pool)

unfoldable pub desired_warm : DployTemplate → ℤ
desired_warm tmpl = elim tmpl.spec.pool [
  | none ↦ pos 0
  | some p ↦ if is_pool tmpl.spec.method then p.size else pos 0
]

pub record Tally : Type 0 where
  pub available_ready : ℕ
  pub claimed : ℕ
  pub total : ℕ
  pub unclaimed : List DployInstance

abbrev pub is_available : DployInstance → Bool
is_available inst = elim inst.status.phase [ InstancePhase.available ↦ true | _ ↦ false ]

-- The count of one instance and those listed behind it.
unfoldable pub tally_one : DployInstance → Tally → Tally
tally_one inst t =
    let free : Tally = record {
      available_ready = if is_available inst then suc t.available_ready else t.available_ready;
      claimed = t.claimed;
      total = suc t.total;
      unclaimed = inst ∷ t.unclaimed;
    } in
    if is_zero inst.meta.deletion_timestamp
    then (if inst.spec.pooled
        then (if is_empty inst.spec.owner
            then free
            else record t { claimed = suc t.claimed; total = suc t.total })
        else record t { total = suc t.total })
    else t

unfoldable pub tally : List DployInstance → Tally
tally [] = record { available_ready = 0; claimed = 0; total = 0; unclaimed = [] }
tally (inst ∷ items) = tally_one inst (tally items)

-- The instance that createPoolInstance writes, but for its owner.
unfoldable pub pool_instance : DployTemplate → ℤ → DployInstance
pool_instance tmpl ttl = record {
  meta = record new_meta {
    generate_name = tmpl.meta.name ++ codes "-pool-";
    namespace = tmpl.meta.namespace;
    labels = record no_labels {
      managed = some (codes "true");
      template = some tmpl.meta.name;
      pooled = some (codes "true");
    };
  };
  spec = record {
    template_ref = tmpl.meta.name;
    owner = [];
    params = [];
    pooled = true;
    ttl_seconds = ttl;
    expires_at = none;
  };
  status = new_status;
}

module _ (kube : Kube) where
  unfoldable pub create_pool_instance : DployTemplate → ℤ → M (Unit {0})
  create_pool_instance tmpl ttl = do
    let inst = pool_instance tmpl ttl
    refs ← set_controller_reference kube (template_owner tmpl) []
    r ← attempt (
        write_instance kube (
          Call.create_instance
            (record inst { meta = record (inst.meta) { owner_references = refs } })))
    elim r [ ok i ↦ done | err already_exists ↦ done | err e ↦ fail e ]

  -- The fill loop, with `created` behind it: it ends where the size or the cap is reached. The fuel
  -- is at least the number of rounds left.
  unfoldable pub top_up : DployTemplate → PoolSpec → ℤ → ℕ → ℕ → ℕ → ℕ → M ℕ
  top_up tmpl p ttl unclaimed total created zero = pure created
  top_up tmpl p ttl unclaimed total created (suc fuel) =
      let go_on : M ℕ = do
        create_pool_instance tmpl ttl
        top_up tmpl p ttl unclaimed total (suc created) fuel
      in if ltb_ℤ (pos (unclaimed + created)) p.size
        then (if ltb_ℤ (pos 0) p.max_size && leb_ℤ p.max_size (pos (total + created))
            then pure created
            else go_on)
        else pure created

  -- How many instances the fill creates; `broken` is the verdict on the chart.
  unfoldable pub fill : DployTemplate → Bool → ℤ → Tally → M ℕ
  fill tmpl broken ttl t = elim tmpl.spec.pool [
    | none ↦ pure 0
    | some p ↦
        if is_pool_active tmpl
        then (if broken
            then pure 0
            else top_up tmpl p ttl (length t.unclaimed) t.total 0 (pos_part p.size))
        else pure 0
  ]
