-- ===== src/InstanceController/Due.antt =====
-- The instance controller ends an instance when the claim controller ends its claim.
use dploy.Prelude.{
  suc, ◌≡◌, refl, Bool, true, false, none, some, List, ◌∷◌, arith, if◌then◌else◌, Bool-cases, inl,
  inr, subst,
}
use dploy.Prelude.Int.{ℤ, minus_one, eq_ℤ, ltb_ℤ, leb_ℤ}
use dploy.Prelude.Text.{codes}
use dploy.V1alpha1.Common.{Time, Condition, OwnerReference}
use dploy.V1alpha1.Instance.{InstancePhase, DployInstance}
use dploy.V1alpha1.Claim.{DployInstanceClaim}
use dploy.Ttl.{is_expired, time_sub}
use dploy.Cluster.{Kube, Call, Log, Result, ok}
use dploy.Cluster.Requests.{delete_instance}
use dploy.Cluster.Traces.{count_calls}
use dploy.ClaimController.{Requeue, no_requeue, desired_instance}
use dploy.InstanceController.Meta.{phase_for, set_ready, patch_status}
use dploy.InstanceController.Expiry.{Applied, expiring_at, enforce, apply_ttl}
use dploy.InstanceController.Materialise.{progress_requeue, project_release}
use dploy.Flux.{translate_helm_release}

abbrev pub is_instance_delete : Call → Bool
is_instance_delete (Call.delete_instance i p) = true
is_instance_delete _ = false

-- A run that ends with this verdict, and with one delete where the verdict is that the time is up.
abbrev EndsBy : Bool → Log → Result Applied × Log → Type 0
EndsBy over log r =
    (a : Applied) × (r.0 ≡ ok a)
    × (a.1.1 ≡ over)
    × (count_calls is_instance_delete r.1 ≡ (
        if over
        then suc (count_calls is_instance_delete log)
        else count_calls is_instance_delete log))

module _ (kube : Kube) (now : Time) (steady : (l : Log) → kube.now l ≡ now)
    (writes : (l : Log) (c : Call) → (i : DployInstance) × (kube.write_instance l c ≡ ok i))
    (deletes : (l : Log) (i : DployInstance)
      → kube.write l (Call.delete_instance i none) ≡ ok tt) where
  enforce_early :
      (i : DployInstance) (exp : Time) (log : Log)
      → i.status.expires_at ≡ some exp
      → ltb_ℤ now exp ≡ true
      → EndsBy false log (enforce kube i log)
  unfolding enforce count_calls
  enforce_early i exp log e early = (
    (i, (time_sub exp now, false)),
    ground (arith, steady log, steady (Call.clock ∷ log)),
    refl,
    ground (arith, steady log, steady (Call.clock ∷ log)),
  )

  patch_works :
      (i : DployInstance) (log : Log)
      → ((patch_status kube i log).0 ≡ ok tt)
        × (count_calls is_instance_delete (patch_status kube i log).1
            ≡ count_calls is_instance_delete log)
  unfolding patch_status count_calls
  patch_works i log =
      let seen : DployInstance = record i {
        status = record (i.status) { observed_generation = i.meta.generation };
      } in
      ground (arith, (writes log (Call.patch_instance_status seen)).1)

  enforce_late :
      (i : DployInstance) (exp : Time) (log : Log)
      → i.status.expires_at ≡ some exp
      → ltb_ℤ now exp ≡ false
      → EndsBy true log (enforce kube i log)
  unfolding enforce delete_instance count_calls
  enforce_late i exp log e late =
      let d : DployInstance = record i {
        status = record (i.status) { phase = InstancePhase.expiring; health = codes "Progressing" };
      } in
      let p = patch_works d (Call.clock ∷ log) in
      (
        (d, (no_requeue, true)),
        ground (arith, steady log, p.0, deletes (patch_status kube d (Call.clock ∷ log)).1 d),
        refl,
        ground (arith, steady log, p, deletes (patch_status kube d (Call.clock ∷ log)).1 d),
      )

  enforce_due :
      (i : DployInstance) (exp : Time) (log : Log)
      → i.status.expires_at ≡ some exp
      → EndsBy (leb_ℤ exp now) log (enforce kube i log)
  enforce_due i exp log e = elim (Bool-cases (ltb_ℤ now exp)) [
    | inr late ↦
        subst (λ b. EndsBy b log (enforce kube i log)) (ground arith)
          (enforce_late i exp log e late)
    | inl early ↦
        subst (λ b. EndsBy b log (enforce kube i log)) (ground arith)
          (enforce_early i exp log e early)
  ]

  -- With an expiry of its own and a limited lifetime, an instance is ended when the expiry has come.
  apply_ttl_due :
      (i : DployInstance) (exp : Time) (log : Log)
      → i.spec.expires_at ≡ some exp
      → eq_ℤ i.spec.ttl_seconds minus_one ≡ false
      → EndsBy (leb_ℤ exp now) log (apply_ttl kube i log)
  unfolding apply_ttl
  apply_ttl_due i exp log e lim =
      let runs : enforce kube (expiring_at (some exp) i) log ≡ apply_ttl kube i log =
        ground arith in
      subst (λ r. EndsBy (leb_ℤ exp now) log r) runs
        (enforce_due (expiring_at (some exp) i) exp log refl)

  -- A reconcile that succeeds, and deletes once more where the time is up.
  abbrev pub DeletesWhen : Bool → Log → Result Requeue × Log → Type 0
  DeletesWhen over log r =
      (a : Requeue) × (r.0 ≡ ok a)
      × (count_calls is_instance_delete r.1 ≡ (
          if over
          then suc (count_calls is_instance_delete log)
          else count_calls is_instance_delete log))

  -- The instance as project_release hands it to apply_ttl.
  abbrev phased : DployInstance → List Condition → Log → DployInstance
  phased inst conditions log =
      let state = translate_helm_release kube conditions in
      let told : DployInstance = record inst {
        status = record (inst.status) {
          health = state.health;
          conditions = kube.set_status_condition log inst.status.conditions (record {
            kind = codes "Ready";
            status = state.status;
            reason = state.reason;
            message = state.message;
            last_transition_time = none;
            observed_generation = inst.meta.generation;
          });
        };
      } in
      record told { status = record (told.status) { phase = phase_for told state } }

  project_release_due :
      (i : DployInstance) (conditions : List Condition) (exp : Time) (log : Log)
      → i.spec.expires_at ≡ some exp
      → eq_ℤ i.spec.ttl_seconds minus_one ≡ false
      → DeletesWhen (leb_ℤ exp now) log (project_release kube i conditions log)
  unfolding project_release set_ready
  project_release_due i conditions exp log e lim =
      let ((j, (after, over)), done, verdict, counted) =
        apply_ttl_due (phased i conditions log) exp log e lim in
      let p = patch_works j (apply_ttl kube (phased i conditions log) log).1 in
      elim (Bool-cases over) [
        | inl ended ↦
            (no_requeue, ground (arith, done, ended), ground (arith, done, verdict, counted, ended))
        | inr stands ↦ (
          progress_requeue (translate_helm_release kube conditions).readiness after,
          ground (arith, done, stands, p),
          ground (arith, done, verdict, counted, stands, p),
        )
      ]

  -- Where the clock stands and the writes succeed, and an instance with a limited lifetime carries the
  -- expiry that its claim's controller wrote: the last stage of the instance controller's reconcile,
  -- which reads the release's conditions and applies the lifetime, deletes the instance, once, if the
  -- claim controller counts the claim as expired, and else deletes nothing, whatever Flux reports.
  pub project_release-desired_instance :
      (inst : DployInstance) (claim : DployInstanceClaim) (ttl : ℤ) (exp : Time)
      (refs : List OwnerReference) (conditions : List Condition) (log : Log)
      → claim.status.expires_at ≡ some exp
      → eq_ℤ ttl minus_one ≡ false
      → DeletesWhen (is_expired claim now) log (
          project_release kube
            (desired_instance claim ttl claim.status.expires_at refs inst)
            conditions
            log)
  unfolding desired_instance is_expired
  project_release-desired_instance inst claim ttl exp refs conditions log e lim =
      let i = desired_instance claim ttl claim.status.expires_at refs inst in
      let verdict : leb_ℤ exp now ≡ is_expired claim now = ground arith in
      subst (λ b. DeletesWhen b log (project_release kube i conditions log)) verdict
        (project_release_due i conditions exp log e lim)
