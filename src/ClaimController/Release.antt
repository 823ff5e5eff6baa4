-- ===== src/ClaimController/Release.antt =====
-- What a claim gives back when it is refused, and what its status then says.
use dploy.Prelude.{
  ◌≡◌, refl, sym, ◌∙◌, subst, ap, ◌⊎◌, inl, inr, Bool, true, false, Option, none, some, List, [],
  ◌∷◌, ◌++◌, All, arith, Bool-cases,
}
use dploy.Prelude.Text.{Text, codes}
use dploy.V1alpha1.Common.{Message, is_false, is_zero}
use dploy.V1alpha1.Instance.{DployInstance}
use dploy.V1alpha1.Claim.{ClaimPhase, DployInstanceClaim}
use dploy.Cluster.{
  Kube, Reader, Call, Log, Result, ok, err, Error, not_found, cached, direct, by_claim_uid,
}
use dploy.Cluster.Traces.{count_calls, Result-cases}
use dploy.Cluster.Requests.{delete_instance}
use dploy.ClaimController.Outcome.{
  condition, first_live, lookup_bound, bound_instance, set_condition, patch_status, reject,
  release_held,
}

abbrev is_status_patch : Call → Bool
is_status_patch (Call.patch_claim_status c) = true
is_status_patch _ = false

-- The last call writes the status of a claim that is refused and holds nothing.
abbrev pub EndsRefused : Log → Log → Type 0
EndsRefused before after =
    (c : DployInstanceClaim) × (after ≡ Call.patch_claim_status c ∷ before)
    × (c.status.phase ≡ ClaimPhase.rejected)
    × (c.status.instance_ref ≡ [])
    × (c.status.expires_at ≡ none)
    × (c.status.observed_generation ≡ c.meta.generation)

-- All of them are being deleted.
abbrev pub NoneLive : List DployInstance → Type 0
NoneLive = All (λ i. is_zero i.meta.deletion_timestamp ≡ false)

-- The first that is not being deleted.
abbrev pub FirstLive : List DployInstance → DployInstance → Type 0
FirstLive items i =
    (gone rest : List DployInstance) × (items ≡ gone ++ i ∷ rest)
    × NoneLive gone
    × (is_zero i.meta.deletion_timestamp ≡ true)

first_live-cases :
    (items : List DployInstance)
    → ((first_live items ≡ none) × NoneLive items)
      ⊎ ((i : DployInstance) × (first_live items ≡ some i) × FirstLive items i)
unfolding first_live
first_live-cases [] = inl (refl, tt)
first_live-cases (x ∷ items) = elim (Bool-cases (is_zero x.meta.deletion_timestamp)) [
  | inl live ↦ inr (x, ground (arith, live), ([], items, refl, tt, live))
  | inr gone ↦ elim (first_live-cases items) [
    | inl (none_there, all) ↦ inl (ground (arith, gone, none_there), (gone, all))
    | inr (i, there, (front, rest, e, all, live)) ↦
        inr (i, ground (arith, gone, there), (x ∷ front, rest, ap (◌∷◌ x) e, (gone, all), live))
  ]
]

module _ (kube : Kube) (claim : DployInstanceClaim) where
  -- The look-up of the instances that carry the claim's uid.
  abbrev look : Reader → Call
  look rd = Call.list_instances rd claim.meta.namespace (by_claim_uid claim.meta.uid)

  abbrev Answers : Reader → Log → List DployInstance → Type 0
  Answers rd log items =
      kube.list_instances log rd claim.meta.namespace (by_claim_uid claim.meta.uid) ≡ ok items

  -- The cache shows none that is live.
  abbrev Unseen : Log → Type 0
  Unseen log = (items : List DployInstance) × Answers cached log items × NoneLive items

  -- The cache shows a live instance, or it shows none and the API server has one.
  abbrev Found : Log → Log → DployInstance → Type 0
  Found log mid i =
      ((items : List DployInstance) × (mid ≡ look cached ∷ log)
        × Answers cached log items
        × FirstLive items i)
      ⊎ (Unseen log
          × ((items : List DployInstance) × (mid ≡ look direct ∷ look cached ∷ log)
              × Answers direct (look cached ∷ log) items
              × FirstLive items i))

  -- Neither the cache nor the API server shows a live instance.
  abbrev Nothing : Log → Log → Type 0
  Nothing log mid =
      Unseen log
      × ((items : List DployInstance) × (mid ≡ look direct ∷ look cached ∷ log)
          × Answers direct (look cached ∷ log) items
          × NoneLive items)

  -- The claim holds nothing, or the instance that it holds is gone: its delete was accepted, or found
  -- no such instance.
  abbrev pub LetsGo : Log → Log → Type 0
  LetsGo log mid =
      Nothing log mid
      ⊎ ((i : DployInstance) × (before : Log) × Found log before i
          × (mid ≡ Call.delete_instance i none ∷ before)
          × ((kube.write before (Call.delete_instance i none) ≡ ok tt)
              ⊎ (kube.write before (Call.delete_instance i none) ≡ err not_found)))

  -- A run that fails and writes no claim's status.
  abbrev pub FailsUnwritten {ℓ} : {A : Type ℓ} → Log → Result A × Log → Type ℓ
  FailsUnwritten log r =
      (e : Error) × (r.0 ≡ err e)
      × (count_calls is_status_patch r.1 ≡ count_calls is_status_patch log)

  -- Looking up a claim's instance: by the cache, then by the API server.
  Looked : Log → Result (Option DployInstance) × Log → Type 0
  Looked log r =
      ((r.0 ≡ ok none) × Nothing log r.1)
      ⊎ ((i : DployInstance) × (r.0 ≡ ok (some i)) × Found log r.1 i)
      ⊎ FailsUnwritten log r

  bound_instance-Looked : (log : Log) → Looked log (bound_instance kube claim log)
  unfolding Looked bound_instance lookup_bound count_calls
  bound_instance-Looked log =
      elim (Result-cases
        (kube.list_instances log cached claim.meta.namespace (by_claim_uid claim.meta.uid))) [
          | inr (e, failed) ↦ inr (inr (e, ground arith, ground arith))
          | inl (items, seen) ↦ elim (first_live-cases items) [
            | inr (i, there, first) ↦
                inr (inl (i, ground arith, inl (items, ground arith, seen, first)))
            | inl (hidden, all) ↦
                elim (Result-cases (
                  kube.list_instances (look cached ∷ log) direct claim.meta.namespace
                    (by_claim_uid claim.meta.uid))) [
                      | inr (e, failed) ↦ inr (inr (e, ground arith, ground arith))
                      | inl (items', asked) ↦ elim (first_live-cases items') [
                        | inr (i, there, first) ↦ inr (
                            inl (
                              i,
                              ground arith,
                              inr ((items, seen, all), (items', ground arith, asked, first)),
                            ))
                        | inl (nowhere, all') ↦ inl (
                          ground arith,
                          ((items, seen, all), (items', ground arith, asked, all')),
                        )
                      ]
                    ]
          ]
        ]

  delete_instance-cases :
      (i : DployInstance) (before : Log)
      → ((delete_instance kube i before ≡ (ok tt, Call.delete_instance i none ∷ before))
          × ((kube.write before (Call.delete_instance i none) ≡ ok tt)
              ⊎ (kube.write before (Call.delete_instance i none) ≡ err not_found)))
        ⊎ FailsUnwritten before (delete_instance kube i before)
  unfolding delete_instance count_calls
  delete_instance-cases i before =
      elim (Result-cases (kube.write before (Call.delete_instance i none))) [
        | inl (u, done) ↦ inl (ground arith, inl done)
        | inr (not_found, gone) ↦ inl (ground arith, inr gone)
        | inr (e, failed) ↦ inr (e, ground arith, ground arith)
      ]

  Found-patches :
      (log mid : Log) (i : DployInstance)
      → Found log mid i
      → count_calls is_status_patch mid ≡ count_calls is_status_patch log
  unfolding count_calls
  Found-patches log mid i (inl (items, e, answered, first)) = rw e refl
  Found-patches log mid i (inr (unseen, (items, e, answered, first))) = rw e refl

  -- What becomes of giving back: the claim lets go, or the run fails.
  abbrev Released : Log → Result (Unit {0}) × Log → Type 0
  Released log r = ((r.0 ≡ ok tt) × LetsGo log r.1) ⊎ FailsUnwritten log r

  Found-Released :
      (log before : Log) (i : DployInstance)
      → Found log before i
      → Released log (delete_instance kube i before)
  Found-Released log before i found = elim (delete_instance-cases i before) [
    | inl (runs, accepted) ↦
        let go : LetsGo log (Call.delete_instance i none ∷ before) =
          inr (i, before, found, refl, accepted) in
        subst (Released log) (sym runs) (inl (refl, go))
    | inr (e, failed, same) ↦ inr (e, failed, same ∙ Found-patches log before i found)
  ]

  release_held-Released : (log : Log) → Released log (release_held kube claim log)
  unfolding release_held Looked
  release_held-Released log = elim (bound_instance-Looked log) [
    | inl (held, nothing) ↦
        let runs : (ok tt, (bound_instance kube claim log).1) ≡ release_held kube claim log =
          ground arith in
        subst (Released log) runs (inl (refl, inl nothing))
    | inr (inl (i, held, found)) ↦
        let before = (bound_instance kube claim log).1 in
        let runs : delete_instance kube i before ≡ release_held kube claim log = ground arith in
        subst (Released log) runs (Found-Released log before i found)
    | inr (inr (e, failed, same)) ↦ inr (e, ground arith, ground arith)
  ]

  refusal : Text → Message → Log → DployInstanceClaim
  refusal reason message l = record claim {
    status = record (claim.status) {
      phase = ClaimPhase.rejected;
      instance_ref = [];
      expires_at = none;
      conditions =
          kube.set_status_condition l claim.status.conditions
            (condition kube claim (codes "Bound") is_false reason message);
      observed_generation = claim.meta.generation;
    };
  }

  -- Whatever the API server answers, a claim's status is written as refused, with no instance, only
  -- behind a look-up that found no live instance of it, neither in the cache nor on the API server,
  -- or behind the delete of the first live one that was found, accepted or answered by not found; in
  -- every other case the refusal fails and writes no status.
  pub reject_releases :
      (reason : Text) (message : Message) (log : Log)
      → ((mid : Log) × LetsGo log mid × EndsRefused mid (reject kube claim reason message log).1)
        ⊎ FailsUnwritten log (reject kube claim reason message log)
  unfolding reject set_condition patch_status refusal
  reject_releases reason message log = elim (release_held-Released log) [
    | inl (released, go) ↦
        let mid = (release_held kube claim log).1 in
        inl (mid, go, (refusal reason message mid, ground arith, refl, refl, refl, refl))
    | inr (e, failed, same) ↦ inr (e, ground arith, ground arith)
  ]
