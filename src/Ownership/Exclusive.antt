-- ===== src/Ownership/Exclusive.antt =====
-- acquirePooled takes what is free when its write is accepted, so that no two claims take the same
-- pool member.
use mathlib.Core.Option.{some-injective}
use native.Mathlib.Decide.{dec_lt}
use dploy.Prelude.{
  ℕ, suc, ◌<◌, ◌≡◌, ◌≢◌, ◌⊎◌, inl, inr, subst, sym, ◌∙◌, ap, true, Option, none, some, [], List,
  arith,
}
use dploy.Prelude.Text.{Text}
use dploy.V1alpha1.Common.{Time}
use dploy.V1alpha1.Instance.{DployInstance}
use dploy.V1alpha1.Template.{DployTemplate}
use dploy.V1alpha1.Claim.{DployInstanceClaim}
use dploy.Ttl.{stamp_bound_at}
use dploy.Cluster.{Kube, Call, Log, Result, ok, err, cached, by_pooled_template}
use dploy.Cluster.Traces.{Result-cases}
use dploy.ClaimController.{is_claimable, bound_copy, acquire_pooled}
use dploy.ClaimController.Candidates.{IsWon, acquire_pooled-Fought}
use dploy.Ownership.History.{key_of, claim_uid_of, History, IsShown, Server, Vacated, IsOrderly}
use dploy.Ownership.Labels.{is_claimable-claim_uid_of}
use dploy.Ownership.Vacated.{Vacated-or-Stays}
use dploy.Ownership.Permanent.{claim_uid_of-held}

bound_copy-meta :
    (claim : DployInstanceClaim) (at : Time) (i : DployInstance)
    → (key_of (bound_copy claim at i) ≡ key_of i)
      × ((bound_copy claim at i).meta.resource_version ≡ i.meta.resource_version)
      × (claim_uid_of (bound_copy claim at i) ≡ claim.meta.uid)
unfolding bound_copy stamp_bound_at
bound_copy-meta claim at i = ground arith

module _ (stored : History) where
  -- At that moment a free instance went to the claim with that uid.
  abbrev pub Takes : Text → ℕ → DployInstance → Type 0
  Takes uid t won =
      (before : DployInstance) × (stored t (key_of won) ≡ some before)
      × (is_claimable before ≡ true)
      × (stored (suc t) (key_of won) ≡ some won)
      × (claim_uid_of won ≡ uid)

  module _ (kube : Kube) (server : Server stored kube) (claim : DployInstanceClaim)
      (at : Time) where
    accepted-Takes :
        (l : Log) (cand won : DployInstance) (n : ℕ)
        → is_claimable cand ≡ true
        → IsShown stored n cand
        → kube.write_instance l (Call.update_instance (bound_copy claim at cand)) ≡ ok won
        → Takes claim.meta.uid (server.moment l) won
    accepted-Takes l cand won n free (m, le, s) w =
        let (before, sb, v, sa, kept, uid) = server.updates l (bound_copy claim at cand) won w in
        let (same_key, same_version, same_uid) = bound_copy-meta claim at cand in
        let sb' = subst (λ k. stored (server.moment l) k ≡ some before) same_key sb in
        let e =
          server.versions (server.moment l) m (key_of cand) before cand sb' s (v ∙ same_version) in
        (
          before,
          subst (λ k. stored (server.moment l) k ≡ some before) (sym kept) sb,
          ap is_claimable e ∙ free,
          subst (λ k. stored (suc (server.moment l)) k ≡ some won) (sym kept) sa,
          uid ∙ same_uid,
        )

    won-Takes :
        (log : Log) (r : Result (Option DployInstance)) (won : DployInstance)
        → r ≡ ok (some won)
        → IsWon kube claim at (IsShown stored (server.moment log)) r
        → (t : ℕ) × Takes claim.meta.uid t won
    won-Takes log (ok (some w)) won e (cand, l, (free, shown), written) =
        subst (λ v. (t : ℕ) × Takes claim.meta.uid t v) (ground arith)
          (server.moment l, accepted-Takes l cand w (server.moment log) free shown written)
    won-Takes log (ok none) won e is_won = ground arith
    won-Takes log (err x) won e is_won = ground arith

    -- What acquirePooled returns was free at the moment that its write was accepted, and is the claim's
    -- at the next.
    acquire_pooled-Takes :
        (tmpl : DployTemplate) (won : DployInstance) (log log' : Log)
        → acquire_pooled kube claim tmpl at log ≡ (ok (some won), log')
        → (t : ℕ) × Takes claim.meta.uid t won
    unfolding acquire_pooled
    acquire_pooled-Takes tmpl won log log' e = elim (Result-cases (listing tmpl log)) [
      | inl (items, listed) ↦
          let (calls, trace, attempts, few, is_won) =
            acquire_pooled-Fought kube claim at (IsShown stored (server.moment log)) tmpl items log
              (server.lists _ _ _ _ items listed) listed in
          won-Takes log _ won (ap (λ r. r.0) e) is_won
      | inr (x, failed) ↦ ground arith
    ]
      where
        listing : DployTemplate → Log → Result (List DployInstance)
        listing t l =
            kube.list_instances l cached claim.meta.namespace (by_pooled_template t.meta.name)

  -- The earlier of two takings of one name by different claims cannot have lasted.
  later-Takes :
      IsOrderly stored
      → (uid uid' : Text) (s t : ℕ) (i j : DployInstance) → uid ≢ []
      → s < t
      → key_of i ≡ key_of j
      → Takes uid s i
      → Takes uid' t j
      → Vacated stored s t (key_of j)
  later-Takes orderly uid uid' s t i j held lt same (b, sb, fb, si, ui) (c, sc, fc, sj, uj) =
      elim (Vacated-or-Stays stored (suc s) t (key_of j)) [
        | inl (r, p, q, gone) ↦ (r, omega (arith, p), q, gone)
        | inr stays ↦
            let si' = subst (λ k. stored (suc s) k ≡ some i) same si in
            absurd (
              claim_uid_of-held stored orderly t (suc s) (omega (arith, lt)) (key_of j) i c si' sc
                (λ e. held (sym ui ∙ e)) stays (is_claimable-claim_uid_of c fc))
      ]

  same-Takes :
      (uid uid' : Text) (s : ℕ) (i j : DployInstance)
      → key_of i ≡ key_of j
      → Takes uid s i
      → Takes uid' s j
      → uid ≡ uid'
  same-Takes uid uid' s i j same (b, sb, fb, si, ui) (c, sc, fc, sj, uj) =
      let si' = subst (λ k. stored (suc s) k ≡ some i) same si in
      sym ui ∙ ap claim_uid_of (some-injective i j (sym si' ∙ sj)) ∙ uj

  -- Two takings, by one claim or with the name vacated between them.
  abbrev pub NotShared : Text → DployInstance → Text → DployInstance → Type 0
  NotShared uid i uid' j =
      (s t : ℕ) × Takes uid s i
      × Takes uid' t j
      × ((uid ≡ uid') ⊎ Vacated stored s t (key_of j) ⊎ Vacated stored t s (key_of i))

  Takes-NotShared :
      IsOrderly stored
      → (uid uid' : Text) (s t : ℕ) (i j : DployInstance) → uid ≢ []
      → uid' ≢ []
      → key_of i ≡ key_of j
      → Takes uid s i
      → Takes uid' t j
      → NotShared uid i uid' j
  Takes-NotShared orderly uid uid' s t i j held held' same w w' = elim (dec_lt s t) [
    | yes lt ↦ (s, t, w, w', inr (inl (later-Takes orderly uid uid' s t i j held lt same w w')))
    | no ge ↦ elim (dec_lt t s) [
      | yes gt ↦
          (s, t, w, w', inr (inr (later-Takes orderly uid' uid t s j i held' gt (sym same) w' w)))
      | no le ↦
          let e : t ≡ s = omega (arith, ge, le) in
          let w'' = subst (λ m. Takes uid' m j) e w' in
          (s, s, w, w'', inl (same-Takes uid uid' s i j same w w''))
    ]
  ]

  -- In a history of which every change is a controller's: where two runs of acquirePooled, by any two
  -- workers and for claims with a uid, return an instance of one name, each took what was stored
  -- there and free, and had it stored as its claim's at the next moment; and the two claims have one
  -- uid, or nothing was stored under the name at some moment between the two.
  pub acquire_pooled_exclusive :
      IsOrderly stored
      → (kube kube' : Kube) (server : Server stored kube) (server' : Server stored kube')
        (claim claim' : DployInstanceClaim) (tmpl tmpl' : DployTemplate) (at at' : Time)
        (won won' : DployInstance) (log log' end end' : Log)
      → claim.meta.uid ≢ []
      → claim'.meta.uid ≢ []
      → key_of won ≡ key_of won'
      → acquire_pooled kube claim tmpl at log ≡ (ok (some won), end)
      → acquire_pooled kube' claim' tmpl' at' log' ≡ (ok (some won'), end')
      → NotShared claim.meta.uid won claim'.meta.uid won'
  acquire_pooled_exclusive orderly kube kube' server server' claim claim' tmpl tmpl' at at' won won'
        log log' end end' held held' same run run' =
      let (s, w) = acquire_pooled-Takes kube server claim at tmpl won log end run in
      let (t, w') = acquire_pooled-Takes kube' server' claim' at' tmpl' won' log' end' run' in
      Takes-NotShared orderly claim.meta.uid claim'.meta.uid s t won won' held held' same w w'
