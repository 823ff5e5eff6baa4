-- ===== src/Ownership/Written.antt =====
-- Under which claim's uid a reconcile of a claim writes instances.
use dploy.Prelude.{
  ◌≡◌, ◌≤◌, refl, ◌∙◌, ap, Bool, false, not, All, ℕ, ◌+◌, Option, List, [], ◌∷◌, arith,
}
use dploy.Prelude.Int.{ℤ}
use dploy.Prelude.Text.{Text, text_eq, text_eq_iff}
use dploy.V1alpha1.Common.{Time, OwnerReference}
use dploy.V1alpha1.Template.{DployTemplate}
use dploy.V1alpha1.Instance.{DployInstance}
use dploy.V1alpha1.Claim.{DployInstanceClaim}
use dploy.Ttl.{stamp_bound_at}
use dploy.Cluster.{Kube, Key, Call, Log, ok}
use dploy.Cluster.Traces.{count_writes}
use dploy.ClaimController.{
  bound_copy, desired_instance, on_demand_instance, reconcile, reconcile_claim,
}
use dploy.ClaimController.OneInstance.{Costs, owned_instance, claim_creates}
use dploy.ClaimController.Creates.{Permits}
use dploy.Ownership.History.{claim_uid_of}
use dploy.Ownership.Labels.{desired_instance-claim_uid_of}

-- A call that creates or updates an instance does so under that claim's uid.
abbrev pub IsOwnWrite : Text → Call → Type 0
IsOwnWrite uid (Call.create_instance i) = claim_uid_of i ≡ uid
IsOwnWrite uid (Call.update_instance i) = claim_uid_of i ≡ uid
IsOwnWrite uid _ = Unit

-- The instance is another claim's.
abbrev is_foreign : Text → DployInstance → Bool
is_foreign uid i = not (text_eq (claim_uid_of i) uid)

is_foreign_eq : (uid : Text) (i : DployInstance) → is_foreign uid i ≡ false → claim_uid_of i ≡ uid
is_foreign_eq uid i h = (text_eq_iff (claim_uid_of i) uid).0 (ground arith)

is_foreign_own : (uid : Text) (i : DployInstance) → claim_uid_of i ≡ uid → is_foreign uid i ≡ false
is_foreign_own uid i h = ap not ((text_eq_iff (claim_uid_of i) uid).1 h)

-- How many calls write another claim's instance.
abbrev foreign : Text → Log → ℕ
foreign uid = count_writes (is_foreign uid) (is_foreign uid)

foreign-IsOwnWrite :
    (uid : Text) (c : Call) (log : Log) → foreign uid (c ∷ log) ≤ 0 → IsOwnWrite uid c
unfolding count_writes
foreign-IsOwnWrite uid c log = elim c as (λ x. foreign uid (x ∷ log) ≤ 0 → IsOwnWrite uid x) [
  | Call.create_instance i ↦ λ n. is_foreign_eq uid i (ground arith)
  | Call.update_instance i ↦ λ n. is_foreign_eq uid i (ground arith)
  | _ ↦ λ n. tt
]

foreign_tail : (uid : Text) (c : Call) (log : Log) → foreign uid log ≤ foreign uid (c ∷ log)
unfolding count_writes
foreign_tail uid c log = ground arith

All-IsOwnWrite : (uid : Text) (log : Log) → foreign uid log ≤ 0 → All (IsOwnWrite uid) log
All-IsOwnWrite uid [] none = tt
All-IsOwnWrite uid (c ∷ log) none =
    let tail = foreign_tail uid c log in
    (foreign-IsOwnWrite uid c log none, All-IsOwnWrite uid log (omega (arith, tail, none)))

bound_copy-claim_uid_of :
    (c : DployInstanceClaim) (b : Time) (i : DployInstance)
    → claim_uid_of (bound_copy c b i) ≡ c.meta.uid
unfolding bound_copy stamp_bound_at
bound_copy-claim_uid_of c b i = ground arith

owned_instance-claim_uid_of :
    (c : DployInstanceClaim) (t : DployTemplate) (b : Time) (ttl : ℤ) (x : Option Time)
    (refs : List OwnerReference)
    → claim_uid_of (owned_instance c t b ttl x refs) ≡ c.meta.uid
unfolding on_demand_instance stamp_bound_at
owned_instance-claim_uid_of c t b ttl x refs = ground arith

is_foreign-Permits : (uid : Text) → Permits (is_foreign uid) (is_foreign uid) uid
is_foreign-Permits uid = record {
  syncs = λ c h ttl x refs i.
      is_foreign_own uid (desired_instance c ttl x refs i)
        (desired_instance-claim_uid_of c ttl x refs i ∙ h);
  binds = λ c h b i. is_foreign_own uid (bound_copy c b i) (bound_copy-claim_uid_of c b i ∙ h);
}

is_foreign-Costs : (uid : Text) → Costs (is_foreign uid) uid 0
is_foreign-Costs uid c h t b ttl x refs n =
    let own =
      is_foreign_own uid (owned_instance c t b ttl x refs)
        (owned_instance-claim_uid_of c t b ttl x refs ∙ h) in
    ground (arith, own)

module _ (kube : Kube) where
  reconcile_claim-foreign :
      (c : DployInstanceClaim) (log : Log)
      → foreign c.meta.uid (reconcile_claim kube c log).1 ≤ foreign c.meta.uid log + 0
  reconcile_claim-foreign c log =
      claim_creates kube (is_foreign c.meta.uid) (is_foreign c.meta.uid) c.meta.uid 0
        (is_foreign-Permits c.meta.uid) (is_foreign-Costs c.meta.uid) c log refl

  -- Where the first read of a reconcile finds a claim, then, whatever else the API server answers, the
  -- reconcile creates and updates instances only with that claim's uid as their label.
  pub reconcile-IsOwnWrite :
      (req : Key) (claim : DployInstanceClaim)
      → kube.get_claim [] req ≡ ok claim
      → All (IsOwnWrite claim.meta.uid) (reconcile kube req []).1
  unfolding reconcile count_writes
  reconcile-IsOwnWrite req claim got =
      let own = reconcile_claim-foreign claim (Call.get_claim req ∷ []) in
      All-IsOwnWrite claim.meta.uid (reconcile kube req []).1 (ground (arith, got, own))
