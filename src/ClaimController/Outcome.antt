-- ===== src/ClaimController/Outcome.antt =====
-- The lookup of a claim's instance, and the ways in which a reconcile ends: pending, reject, expire,
-- observe and the status patch.
use dploy.Prelude.{
  ◌*◌, Bool, true, false, ◌||◌, Option, none, some, List, [], ◌∷◌, is_empty, if◌then◌else◌,
}
use dploy.Prelude.Int.{ℤ, pos, eq_ℤ}
use dploy.Prelude.Text.{Text, codes, text_eq}
use dploy.V1alpha1.Common.{
  value, is_zero, Condition, ConditionStatus, is_false, Message, text, OwnerReference,
  dploy_instance_claim,
}
use dploy.V1alpha1.Instance.{InstancePhase, DployInstance}
use dploy.V1alpha1.Claim.{ClaimPhase, DployInstanceClaim}
use dploy.Effective.{second}
use dploy.Naming.{sanitize}
use dploy.Cluster.{
  not_found, ok, err, Kube, Reader, cached, direct, by_claim_uid, Call, M, ◌>>=◌, ◌>>◌, pure, done,
  fail, attempt,
}
use dploy.Cluster.Requests.{list_instances, write_claim, delete_instance}

-- ctrl.Result by its RequeueAfter in nanoseconds; 0 asks for none.
abbrev pub Requeue : Type 0
Requeue = ℤ

abbrev pub no_requeue : Requeue
no_requeue = pos 0

abbrev pub claim_pool_wait_requeue : Requeue
claim_pool_wait_requeue = pos (10 * second)

-- A label written where it differs, and whether it did; Go reads a missing one as "".
unfoldable pub want_label : Option Text → Text → Option Text × Bool
want_label l v = if text_eq (value l) v then (l, false) else (some v, true)

unfoldable pub want_owner_label : Option Text → Text → Option Text × Bool
unfolding want_label
want_owner_label l o = if is_empty o then (l, false) else want_label l o

-- ensureMeta of the claim controller.
unfoldable pub ensure_meta : DployInstanceClaim → DployInstanceClaim × Bool
unfolding want_label want_owner_label
ensure_meta claim =
    let (m, m_changed) = want_label claim.meta.labels.managed (codes "true") in
    let (t, t_changed) = want_label claim.meta.labels.template claim.spec.template_ref in
    let (o, o_changed) = want_owner_label claim.meta.labels.owner (sanitize claim.spec.owner) in
    (
      record claim {
        meta = record (claim.meta) {
          labels = record (claim.meta.labels) { managed = m; template = t; owner = o };
        };
      },
      m_changed || (t_changed || o_changed),
    )

unfoldable pub first_live : List DployInstance → Option DployInstance
first_live [] = none
first_live (i ∷ items) = if is_zero i.meta.deletion_timestamp then some i else first_live items

-- The claim as the owner of an instance.
abbrev pub owner_of : DployInstanceClaim → OwnerReference
owner_of claim = record {
  kind = dploy_instance_claim;
  name = claim.meta.name;
  uid = claim.meta.uid;
  controller = true;
}

module _ (kube : Kube) where
  unfoldable pub lookup_bound : Reader → DployInstanceClaim → M (Option DployInstance)
  lookup_bound rd claim = do
    items ← list_instances kube rd claim.meta.namespace (by_claim_uid claim.meta.uid)
    pure (first_live items)

  -- What the cache does not show is asked of the API server.
  unfoldable pub bound_instance : DployInstanceClaim → M (Option DployInstance)
  bound_instance claim = do
    seen ← lookup_bound cached claim
    elim seen [ some i ↦ pure (some i) | none ↦ lookup_bound direct claim ]

  unfoldable pub set_condition : DployInstanceClaim → Condition → M DployInstanceClaim
  set_condition claim c log = (
    ok (record claim {
      status = record (claim.status) {
        conditions = kube.set_status_condition log claim.status.conditions c;
      };
    }),
    log,
  )

  -- A condition without a transition time: SetStatusCondition stamps it.
  abbrev pub condition : DployInstanceClaim → Text → ConditionStatus → Text → Message → Condition
  condition claim kind status reason message = record {
    kind = kind;
    status = status;
    reason = reason;
    message = message;
    last_transition_time = none;
    observed_generation = claim.meta.generation;
  }

  -- A claim that is gone needs no status.
  unfoldable pub patch_status : DployInstanceClaim → M (Unit {0})
  patch_status claim = do
    let seen = record claim {
      status = record (claim.status) { observed_generation = claim.meta.generation };
    }
    r ← attempt (write_claim kube (Call.patch_claim_status seen))
    elim r [ err not_found ↦ done | err e ↦ fail e | ok c ↦ done ]

  unfoldable pub pending : DployInstanceClaim → Text → Message → M Requeue
  pending claim reason message = do
    let parked = record claim {
      status = record (claim.status) { phase = ClaimPhase.pending; instance_ref = [] };
    }
    c ← set_condition parked (condition parked (codes "Bound") is_false reason message)
    patch_status c
    pure claim_pool_wait_requeue

  unfoldable pub release_held : DployInstanceClaim → M (Unit {0})
  release_held claim = do
    held ← bound_instance claim
    elim held [ none ↦ done | some inst ↦ delete_instance kube inst ]

  unfoldable pub reject : DployInstanceClaim → Text → Message → M Requeue
  reject claim reason message = do
    release_held claim
    let refused = record claim {
      status = record (claim.status) {
        phase = ClaimPhase.rejected;
        instance_ref = [];
        expires_at = none;
      };
    }
    c ← set_condition refused (condition refused (codes "Bound") is_false reason message)
    patch_status c
    pure no_requeue

  unfoldable pub delete_held : Option DployInstance → M (Unit {0})
  delete_held none = done
  delete_held (some inst) = delete_instance kube inst

  abbrev torn_down : Message
  torn_down = text (codes "the environment reached its TTL and was torn down")

  unfoldable pub expire : DployInstanceClaim → Option DployInstance → M Requeue
  unfolding delete_held
  expire claim inst = do
    delete_held inst
    let tombstone = record claim {
      status = record (claim.status) {
        phase = ClaimPhase.expired;
        instance_ref = [];
        connection_url = [];
        connection_message = [];
        instance_phase = InstancePhase.unset;
        health = [];
      };
    }
    b ←
        set_condition tombstone
          (condition tombstone (codes "Bound") is_false (codes "Expired") torn_down)
    c ← set_condition b (condition b (codes "Ready") is_false (codes "Expired") torn_down)
    patch_status c
    pure no_requeue

  unfoldable pub observe : DployInstanceClaim → M (Unit {0})
  observe claim =
      if eq_ℤ claim.status.observed_generation claim.meta.generation
      then done
      else patch_status claim
