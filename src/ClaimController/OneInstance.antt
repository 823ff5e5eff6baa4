-- ===== src/ClaimController/OneInstance.antt =====
-- A reconcile of a claim creates at most one instance, and none where the claim has one.
use dploy.Prelude.{
  ℕ, zero, suc, ◌+◌, ◌≤◌, ◌≡◌, refl, Option-cases, inl, inr, get_elem?, length, ◌%◌, Option, List,
  ◌∷◌, Bool, true, false, if◌then◌else◌, arith,
}
use dploy.Prelude.Int.{ℤ}
use dploy.Prelude.Text.{Text}
use dploy.V1alpha1.Common.{Time, OwnerReference}
use dploy.V1alpha1.Template.{DployTemplate}
use dploy.V1alpha1.Instance.{DployInstance}
use dploy.V1alpha1.Claim.{DployInstanceClaim}
use dploy.Effective.{Effective}
use dploy.Cluster.{Kube, Key, Call, Log}
use dploy.Cluster.Requests
use dploy.Cluster.Traces.{count_calls, is_create, count_writes, count_writes-create}
use dploy.ClaimController.Outcome
use dploy.ClaimController.Capacity
use dploy.ClaimController.Bind
use dploy.ClaimController.Reconcile
use dploy.ClaimController.Creates.{
  Permits, creates, config_creates, bound_creates, pending-creates, reject-creates, expire-creates,
  over_quota-creates, bound_stage_creates, patch_creates,
}

-- The instance that createOnDemand creates.
abbrev pub owned_instance :
    DployInstanceClaim
    → DployTemplate
    → Time
    → ℤ
    → Option Time
    → List OwnerReference
    → DployInstance
owned_instance c t b ttl x refs =
    let inst = Bind.on_demand_instance c t b ttl x in
    record inst { meta = record (inst.meta) { owner_references = refs } }

-- What the new instance of a claim counts, at most.
abbrev pub Costs : (DployInstance → Bool) → Text → ℕ → Type 0
Costs made u top =
    (c : DployInstanceClaim)
    → c.meta.uid ≡ u
    → (t : DployTemplate) (b : Time) (ttl : ℤ) (x : Option Time) (refs : List OwnerReference)
      (n : ℕ)
    → (if made (owned_instance c t b ttl x refs) then suc n else n) ≤ n + top

module _ (kube : Kube) (made written : DployInstance → Bool) where
  module _ (u : Text) (top : ℕ) (permits : Permits made written u) (costs : Costs made u top) where
    try_creates :
        (c : DployInstanceClaim) (b : Time) (cands : List DployInstance) (start i left : ℕ)
        (log : Log)
        → c.meta.uid ≡ u
        → creates kube made written (Bind.try_candidates kube c b cands start i left log).1
          ≡ creates kube made written log
    unfolding Bind.try_candidates count_writes
    try_creates c b cands start i zero log h = refl
    try_creates c b cands start i (suc left) log h =
        elim (Option-cases (get_elem? cands ((start + i) % length cands))) [
          | inl out ↦ ground arith
          | inr (cand, at) ↦
              let log' = Call.update_instance (Bind.bound_copy c b cand) ∷ log in
              ground
                (arith, permits.binds c h b cand, try_creates c b cands start (i + 1) left log' h)
        ]

    acquire_creates :
        (c : DployInstanceClaim) (t : DployTemplate) (b : Time) (log : Log)
        → c.meta.uid ≡ u
        → creates kube made written (Bind.acquire_pooled kube c t b log).1
          ≡ creates kube made written log
    unfolding Bind.acquire_pooled count_writes
    acquire_creates c t b log h = grind (arith, try_creates)

    provision_creates :
        (c : DployInstanceClaim) (t : DployTemplate) (b : Time) (ttl : ℤ) (x : Option Time)
        (log : Log)
        → c.meta.uid ≡ u
        → creates kube made written (Bind.provision_within_cap kube c t b ttl x log).1
          ≤ creates kube made written log + top
    unfolding Bind.provision_within_cap Bind.create_on_demand Capacity.over_max_size
        Capacity.template_instances Requests.set_controller_reference count_writes
    provision_creates c t b ttl x log h = grind (arith, costs c h t b ttl x)

    on_demand_creates :
        (c : DployInstanceClaim) (t : DployTemplate) (b : Time) (ttl : ℤ) (x : Option Time)
        (log : Log)
        → c.meta.uid ≡ u
        → creates kube made written (Bind.create_on_demand kube c t b ttl x log).1
          ≤ creates kube made written log + top
    unfolding Bind.create_on_demand Requests.set_controller_reference count_writes
    on_demand_creates c t b ttl x log h = grind (arith, costs c h t b ttl x)

    bind-creates :
        (c : DployInstanceClaim) (t : DployTemplate) (b : Time) (ttl : ℤ) (x : Option Time)
        (log : Log)
        → c.meta.uid ≡ u
        → creates kube made written (Bind.bind kube c t b ttl x log).1
          ≤ creates kube made written log + top
    unfolding Bind.bind
    bind-creates c t b ttl x log h =
        grind (arith, acquire_creates, provision_creates, on_demand_creates)

    go_on_creates :
        (c : DployInstanceClaim) (t : DployTemplate) (e : Effective) (ttl : ℤ) (log : Log)
        → c.meta.uid ≡ u
        → creates kube made written (Reconcile.bind_and_go_on kube c t e ttl log).1
          ≤ creates kube made written log + top
    unfolding Reconcile.bind_and_go_on count_writes
    go_on_creates c t e ttl log h =
        grind (arith, bind-creates, pending-creates, bound_stage_creates)

    unbound_creates :
        (c : DployInstanceClaim) (t : DployTemplate) (e : Effective) (ttl : ℤ) (log : Log)
        → c.meta.uid ≡ u
        → creates kube made written (Reconcile.reconcile_unbound kube c t e ttl log).1
          ≤ creates kube made written log + top
    unfolding Reconcile.reconcile_unbound
    unbound_creates c t e ttl log h =
        grind (arith, over_quota-creates, reject-creates, go_on_creates)

    enabled_creates :
        (c : DployInstanceClaim) (t : DployTemplate) (log : Log)
        → c.meta.uid ≡ u
        → creates kube made written (Reconcile.reconcile_enabled kube c t log).1
          ≤ creates kube made written log + top
    unfolding Reconcile.reconcile_enabled count_writes
    enabled_creates c t log h =
        grind (
          arith, config_creates, bound_creates, expire-creates, unbound_creates,
          bound_stage_creates,
        )

    in_flight_creates :
        (c : DployInstanceClaim) (log : Log)
        → c.meta.uid ≡ u
        → creates kube made written (Reconcile.reconcile_in_flight kube c log).1
          ≤ creates kube made written log + top
    unfolding Reconcile.reconcile_in_flight count_writes
    in_flight_creates c log h = grind (arith, reject-creates, enabled_creates)

    phase_creates :
        (c : DployInstanceClaim) (log : Log)
        → c.meta.uid ≡ u
        → creates kube made written (Reconcile.reconcile_phase kube c log).1
          ≤ creates kube made written log + top
    unfolding Reconcile.reconcile_phase Outcome.observe
    phase_creates c log h = grind (arith, patch_creates, in_flight_creates)

    pub claim_creates :
        (c : DployInstanceClaim) (log : Log)
        → c.meta.uid ≡ u
        → creates kube made written (Reconcile.reconcile_claim kube c log).1
          ≤ creates kube made written log + top
    unfolding Reconcile.reconcile_claim Outcome.ensure_meta count_writes
    claim_creates c log h = grind (arith, phase_creates)

module _ (kube : Kube) where
  one_creates :
      (c : DployInstanceClaim) (log : Log)
      → count_calls is_create (Reconcile.reconcile_claim kube c log).1
        ≤ count_calls is_create log + 1
  one_creates c log =
      let one =
        claim_creates kube (λ i. true) (λ i. false) c.meta.uid 1
          (record { syncs = λ c' h ttl x refs i. refl; binds = λ c' h b i. refl })
          (λ c' h t b ttl x refs n. omega arith) c log refl in
      omega (
        arith,
        one,
        count_writes-create log,
        count_writes-create (Reconcile.reconcile_claim kube c log).1,
      )

  -- Whatever the API server answers, one reconcile of a claim creates at most one instance.
  pub reconcile-creates_one :
      (req : Key) (log : Log)
      → count_calls is_create (Reconcile.reconcile kube req log).1 ≤ count_calls is_create log + 1
  unfolding Reconcile.reconcile count_calls
  reconcile-creates_one req log = grind (arith, one_creates)
