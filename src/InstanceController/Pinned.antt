-- ===== src/InstanceController/Pinned.antt =====
-- What a reconcile never moves: the identifier of an instance and its namespace.
use dploy.Prelude.{ℕ, ◌≡◌, Bool, true, false, ◌&&◌, not, Option, List, arith, is_empty}
use dploy.Prelude.Text.{Text, text_eq, text_eq_refl}
use dploy.V1alpha1.Common.{value, Message, Condition}
use dploy.V1alpha1.Template.{DployTemplate}
use dploy.V1alpha1.Instance.{DployInstance}
use dploy.Effective.{Effective}
use dploy.Flux.{ensure_namespace, ensure_source, ensure_helm_release}
use dploy.Cluster.{Kube, Key, Log, Call, SourceKind, ok, cached}
use dploy.Cluster.Requests.{resolve_config, delete_instance}
use dploy.Cluster.Traces.{count_calls}
use dploy.InstanceController.Meta.{ensure_meta, set_ready, patch_status, fail_with}
use dploy.InstanceController.Present.{
  present, target_namespace_of, presented, unpresentable, Presentation,
}
use dploy.InstanceController.Expiry.{Applied, apply_ttl, enforce, anchor}
use dploy.InstanceController.Teardown.{
  reconcile_delete, await_uninstall, finish_teardown, write_unless_gone,
}
use dploy.InstanceController.Materialise.{
  materialise, race_or_fail, apply_release, hold_back, project_release,
}
use dploy.InstanceController.Reconcile.{
  reconcile, reconcile_instance, reconcile_stamped, reconcile_named, persist_meta,
}

-- A status is written with another identifier or namespace, or an instance for another claim.
abbrev pub moves : Text → Text → Option Text → Call → Bool
moves uuid namespace holder (Call.patch_instance_status i) = not (
    text_eq i.status.uuid uuid
    && (text_eq i.status.namespace namespace
        && text_eq (value i.meta.labels.claim_uid) (value holder)))
moves uuid namespace holder (Call.update_instance i) =
    not (text_eq (value i.meta.labels.claim_uid) (value holder))
moves uuid namespace holder (Call.create_instance i) = true
moves uuid namespace holder _ = false

-- The instance has this identifier and namespace, and the uid of this claim, or none.
abbrev pub IsAt : Text → Text → Option Text → DployInstance → Type 0
IsAt uuid namespace holder i =
    (i.status.uuid ≡ uuid) × (i.status.namespace ≡ namespace) × (i.meta.labels.claim_uid ≡ holder)

-- The instance of a presentation.
abbrev shown_instance : Presentation → DployInstance
shown_instance (presented i j) = i
shown_instance (unpresentable i r) = i

module _ (kube : Kube) (u n : Text) (c : Option Text) where
  abbrev pub moved : Log → ℕ
  moved = count_calls (moves u n c)

  patch_moves :
      (i : DployInstance) (log : Log) → IsAt u n c i → moved (patch_status kube i log).1 ≡ moved log
  unfolding patch_status count_calls
  patch_moves i log h = ground (arith, text_eq_refl u, text_eq_refl n, text_eq_refl (value c))

  fail_moves :
      (i : DployInstance) (r : Text) (m : Message) (log : Log)
      → IsAt u n c i
      → moved (fail_with kube i r m log).1 ≡ moved log
  unfolding fail_with set_ready
  fail_moves i r m log h = grind (arith, patch_moves)

  enforce_moves :
      (i : DployInstance) (log : Log) → IsAt u n c i → moved (enforce kube i log).1 ≡ moved log
  unfolding enforce delete_instance count_calls
  enforce_moves i log h = grind (arith, patch_moves)

  apply_ttl_moves :
      (i : DployInstance) (log : Log) → IsAt u n c i → moved (apply_ttl kube i log).1 ≡ moved log
  unfolding apply_ttl anchor count_calls
  apply_ttl_moves i log h = grind (arith, enforce_moves)

  apply_ttl-IsAt :
      (i : DployInstance) (log : Log) (a : Applied)
      → IsAt u n c i
      → (apply_ttl kube i log).0 ≡ ok a
      → IsAt u n c a.0
  unfolding apply_ttl anchor enforce delete_instance patch_status
  apply_ttl-IsAt i log a h e = ground arith

  project_moves :
      (i : DployInstance) (cs : List Condition) (log : Log)
      → IsAt u n c i
      → moved (project_release kube i cs log).1 ≡ moved log
  unfolding project_release set_ready
  project_moves i cs log h = grind (arith, apply_ttl_moves, apply_ttl-IsAt, patch_moves)

  apply_release_moves :
      (i : DployInstance) (t : DployTemplate) (e : Effective) (k : SourceKind) (s v : Text)
      (log : Log)
      → IsAt u n c i
      → moved (apply_release kube i t e k s v log).1 ≡ moved log
  unfolding apply_release ensure_helm_release count_calls
  apply_release_moves i t e k s v log h = grind (arith, project_moves, fail_moves)

  hold_moves :
      (i : DployInstance) (r : Text) (m : Message) (log : Log)
      → IsAt u n c i
      → moved (hold_back kube i r m log).1 ≡ moved log
  unfolding hold_back set_ready
  hold_moves i r m log h = grind (arith, patch_moves)

  materialise_moves :
      (i : DployInstance) (t : DployTemplate) (e : Effective) (v : Text) (log : Log)
      → IsAt u n c i
      → moved (materialise kube i t e v log).1 ≡ moved log
  unfolding materialise race_or_fail ensure_namespace ensure_source count_calls
  materialise_moves i t e v log h = grind (arith, apply_release_moves, hold_moves, fail_moves)

  delete_moves :
      (i : DployInstance) (log : Log)
      → IsAt u n c i
      → moved (reconcile_delete kube i log).1 ≡ moved log
  unfolding reconcile_delete await_uninstall finish_teardown write_unless_gone count_calls
  delete_moves i log h = grind (arith, patch_moves, text_eq_refl (value c))

  config_moves : (log : Log) → moved (resolve_config kube log).1 ≡ moved log
  unfolding resolve_config count_calls
  config_moves log = ground arith

  module _ (set : is_empty u ≡ false) (placed : is_empty n ≡ false) where
    present-IsAt :
        (i : DployInstance) (t : DployTemplate) (e : Effective)
        → IsAt u n c i
        → IsAt u n c (shown_instance (present kube i t e))
    unfolding present target_namespace_of
    present-IsAt i t e h = ground arith

    named_moves :
        (i : DployInstance) (t : DployTemplate) (e : Effective) (log : Log)
        → IsAt u n c i
        → moved (reconcile_named kube i t e log).1 ≡ moved log
    unfolding reconcile_named
    named_moves i t e log h = grind (arith, present-IsAt i t e h, materialise_moves, fail_moves)

    stamped_moves :
        (i : DployInstance) (log : Log)
        → IsAt u n c i
        → moved (reconcile_stamped kube i log).1 ≡ moved log
    unfolding reconcile_stamped count_calls
    stamped_moves i log h = grind (arith, config_moves, named_moves, fail_moves)

    -- Once an instance has an identifier and a namespace in its status, no reconcile of it writes a
    -- status with another one, nor the instance with another claim's uid than it had, nor creates an
    -- instance, whatever the API server, the template and the configuration say.
    pub reconcile_pins :
        (req : Key) (inst : DployInstance) (log : Log)
        → kube.get_instance log cached req ≡ ok inst
        → IsAt u n c inst
        → moved (reconcile kube req log).1 ≡ moved log
    unfolding reconcile reconcile_instance persist_meta ensure_meta count_calls
    reconcile_pins req inst log g h =
        grind (arith, stamped_moves, delete_moves, text_eq_refl (value c))
