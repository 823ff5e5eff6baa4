-- ===== src/Ownership/Lookup.antt =====
-- boundInstance finds what was stored under its claim's uid.
use mathlib.Core.Option.{some-injective}
use dploy.Prelude.{
  ◌≤◌, ◌≡◌, ◌⊎◌, inl, inr, subst, ap, some, [], ◌∷◌, List, All, arith, Bool-cases, Option-cases,
}
use dploy.Prelude.Text.{Text}
use dploy.V1alpha1.Common.{is_zero}
use dploy.V1alpha1.Instance.{DployInstance}
use dploy.V1alpha1.Claim.{DployInstanceClaim}
use dploy.Cluster.{Kube, Reader, cached, direct, by_claim_uid, Call, Log, ok}
use dploy.Cluster.Traces.{Result-cases}
use dploy.ClaimController.{first_live, lookup_bound, bound_instance}
use dploy.Ownership.History.{claim_uid_of, History, IsShown, Server}

first_live-All :
    (P : DployInstance → Type 0) (is : List DployInstance) (i : DployInstance)
    → All P is
    → first_live is ≡ some i
    → P i
unfolding first_live
first_live-All P [] i h e = ground arith
first_live-All P (x ∷ is) i h e = elim (Bool-cases (is_zero x.meta.deletion_timestamp)) [
  | inl live ↦ subst P (some-injective x i (ground arith)) h.0
  | inr gone ↦ first_live-All P is i h.1 (ground arith)
]

module _ (stored : History) (kube : Kube) (server : Server stored kube) where
  -- The instance is shown, under the claim's uid.
  abbrev pub IsHeld : Text → Log → DployInstance → Type 0
  IsHeld uid l i = IsShown stored (server.moment l) i × (claim_uid_of i ≡ uid)

  lookup_bound-IsHeld :
      (rd : Reader) (claim : DployInstanceClaim) (i : DployInstance) (log log' : Log)
      → lookup_bound kube rd claim log ≡ (ok (some i), log')
      → IsHeld claim.meta.uid log i
  unfolding lookup_bound
  lookup_bound-IsHeld rd claim i log log' e =
      elim (Result-cases
        (kube.list_instances log rd claim.meta.namespace (by_claim_uid claim.meta.uid))) [
          | inl (is, listed) ↦ (
            first_live-All (IsShown stored (server.moment log)) is i
                (server.lists _ _ _ _ is listed) (ground arith),
            first_live-All (λ j. claim_uid_of j ≡ claim.meta.uid) is i
                (server.selects _ _ _ _ is listed) (ground arith),
          )
          | inr (x, failed) ↦ ground arith
        ]

  lookup_bound-onward :
      (rd : Reader) (claim : DployInstanceClaim) (log : Log)
      → server.moment log ≤ server.moment (lookup_bound kube rd claim log).1
  unfolding lookup_bound
  lookup_bound-onward rd claim log =
      let step =
        server.onward log
          (Call.list_instances rd claim.meta.namespace (by_claim_uid claim.meta.uid)) in
      ground (arith, step)

  bound_instance-cases :
      (claim : DployInstanceClaim) (i : DployInstance) (log log' : Log)
      → bound_instance kube claim log ≡ (ok (some i), log')
      → (lookup_bound kube cached claim log ≡ (ok (some i), log'))
        ⊎ (lookup_bound kube direct claim (lookup_bound kube cached claim log).1
            ≡ (ok (some i), log'))
  unfolding bound_instance
  bound_instance-cases claim i log log' e =
      elim (Result-cases (lookup_bound kube cached claim log).0) [
        | inr (x, failed) ↦ ground arith
        | inl (o, found) ↦ elim (Option-cases o) [
          | inl nothing ↦ inr (ground arith)
          | inr (j, there) ↦ inl (ground arith)
        ]
      ]

  IsHeld-later :
      (uid : Text) (l l' : Log) (i : DployInstance)
      → server.moment l ≤ server.moment l'
      → IsHeld uid l i
      → IsHeld uid l' i
  IsHeld-later uid l l' i le ((m, le', s), u) = ((m, omega (arith, le, le'), s), u)

  -- What boundInstance finds was stored under the claim's uid, by the time it returns.
  pub bound_instance-IsHeld :
      (claim : DployInstanceClaim) (i : DployInstance) (log log' : Log)
      → bound_instance kube claim log ≡ (ok (some i), log')
      → IsHeld claim.meta.uid log' i
  bound_instance-IsHeld claim i log log' e = elim (bound_instance-cases claim i log log' e) [
    | inl seen ↦
        IsHeld-later claim.meta.uid log log' i
          (subst (λ l. server.moment log ≤ server.moment l) (ap (λ r. r.1) seen)
            (lookup_bound-onward cached claim log))
          (lookup_bound-IsHeld cached claim i log log' seen)
    | inr asked ↦
        let log1 = (lookup_bound kube cached claim log).1 in
        IsHeld-later claim.meta.uid log1 log' i
          (subst (λ l. server.moment log1 ≤ server.moment l) (ap (λ r. r.1) asked)
            (lookup_bound-onward direct claim log1))
          (lookup_bound-IsHeld direct claim i log1 log' asked)
  ]
