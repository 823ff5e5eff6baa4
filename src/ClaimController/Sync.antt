-- ===== src/ClaimController/Sync.antt =====
-- What a binding writes onto its instance, and what a claim shows of it: syncInstance, project and
-- failedFor.
use dploy.Prelude.{ℕ, zero, suc, Bool, true, false, Option, none, some, List, [], if◌then◌else◌}
use dploy.Prelude.Int.{ℤ, pos}
use dploy.Prelude.Text.{codes}
use dploy.V1alpha1.Common.{Time, Condition, is_true, is_false, text, bound_to, OwnerReference}
use dploy.V1alpha1.Instance.{InstancePhase, DployInstance}
use dploy.V1alpha1.Claim.{ClaimPhase, DployInstanceClaim}
use dploy.Naming.{sanitize}
use dploy.Ttl.{stamp_bound_at, time_sub}
use dploy.Cluster.{conflict, ok, err, Kube, key, cached, Call, M, ◌>>=◌, pure, fail, attempt}
use dploy.Cluster.Requests.{read_clock, get_instance, write_instance, set_controller_reference}
use dploy.ClaimController.Outcome.{owner_of, set_condition, condition}

unfoldable pub stamp_if_bound : Option Time → DployInstance → DployInstance
stamp_if_bound none inst = inst
stamp_if_bound (some t) inst = stamp_bound_at inst t

-- The instance as the binding wants it, under the given owners.
unfoldable pub desired_instance :
    DployInstanceClaim → ℤ → Option Time → List OwnerReference → DployInstance → DployInstance
unfolding stamp_if_bound
desired_instance claim ttl expires_at refs cur =
    let labelled = stamp_if_bound claim.status.bound_at (record cur {
      meta = record (cur.meta) {
        owner_references = refs;
        labels = record (cur.meta.labels) {
          claim = some claim.meta.name;
          claim_uid = some claim.meta.uid;
          owner = some (sanitize claim.spec.owner);
        };
      };
    }) in
    record labelled {
      spec = record (labelled.spec) {
        owner = claim.spec.owner;
        params = claim.spec.params;
        ttl_seconds = ttl;
        expires_at = expires_at;
      };
    }

-- retry.RetryOnConflict, with that many further attempts.
unfoldable pub retry_on_conflict : {A : Type 0} → ℕ → M A → M A
retry_on_conflict zero m = m
retry_on_conflict (suc n) m = do
  r ← attempt m
  elim r [ ok a ↦ pure a | err conflict ↦ retry_on_conflict n m | err e ↦ fail e ]

is_failed : InstancePhase → Bool
is_failed InstancePhase.failed = true
is_failed _ = false

-- The status of a claim that shows its instance.
unfoldable pub projected : DployInstanceClaim → DployInstance → DployInstanceClaim
projected claim inst = record claim {
  status = record (claim.status) {
    phase = ClaimPhase.bound;
    instance_ref = inst.meta.name;
    uuid = inst.status.uuid;
    connection_url = inst.status.url;
    connection_type = inst.status.connection_type;
    connection_message = inst.status.connection_message;
    instance_phase = inst.status.phase;
    health = inst.status.health;
  };
}

module _ (kube : Kube) where
  unfoldable pub sync_once : DployInstanceClaim → DployInstance → ℤ → Option Time → M DployInstance
  sync_once claim inst ttl expires_at = do
    cur ← get_instance kube cached (key inst.meta.namespace inst.meta.name)
    refs ← set_controller_reference kube (owner_of claim) []
    let desired = desired_instance claim ttl expires_at refs cur
    if kube.deep_equal cur desired
        then pure inst
        else write_instance kube (Call.update_instance desired)

  -- The instance as it was given where nothing had to change, else as written.
  unfoldable pub sync_instance :
      DployInstanceClaim → DployInstance → ℤ → Option Time → M DployInstance
  sync_instance claim inst ttl expires_at =
      retry_on_conflict kube.retries (sync_once claim inst ttl expires_at)

  -- The Ready condition that a claim takes over from its instance.
  unfoldable pub ready_condition : DployInstanceClaim → DployInstance → Condition
  ready_condition claim inst =
      let converging =
        condition kube claim (codes "Ready") is_false (codes "Provisioning")
          (text (codes "instance is converging")) in
      elim (kube.find_status_condition inst.status.conditions (codes "Ready")) [
        | none ↦ converging
        | some c ↦ record converging { status = c.status; reason = c.reason; message = c.message }
      ]

  unfoldable pub project : DployInstanceClaim → DployInstance → M DployInstanceClaim
  project claim inst = do
    let shown = projected claim inst
    b ←
        set_condition kube shown
          (condition kube claim (codes "Bound") is_true (codes "Bound") (bound_to inst.meta.name))
    set_condition kube b (ready_condition claim inst)

  -- How long the instance has been Failed, by the transition of its Ready condition.
  unfoldable pub failed_since : Option Condition → M ℤ
  failed_since none = pure (pos 0)
  failed_since (some c) = elim c.last_transition_time [
    | none ↦ pure (pos 0)
    | some t ↦ do now ← read_clock kube; pure (time_sub now t)
  ]

  unfoldable pub failed_for : DployInstance → M ℤ
  unfolding is_failed failed_since
  failed_for inst =
      if is_failed inst.status.phase
      then failed_since (kube.find_status_condition inst.status.conditions (codes "Ready"))
      else pure (pos 0)
