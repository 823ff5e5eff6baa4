-- ===== src/ClaimController/Candidates.antt =====
-- The fight for a warm pool member.
use Prim.Native.Nat.{min}
use mathlib.Core.List.{append_assoc}
use mathlib.Core.Option.{some-injective}
use dploy.Prelude.{
  ℕ, zero, suc, ◌+◌, ◌%◌, ◌≤◌, ◌<◌, ◌≡◌, refl, sym, ◌∙◌, ◌⊎◌, inl, inr, true, Option, none, some,
  List, [], ◌∷◌, ◌++◌, All, arith, length, length-append, All-append, subst, select, All-select,
  get_elem?, Option-cases,
}
use dploy.Prelude.Text.{Text}
use dploy.V1alpha1.Common.{Time}
use dploy.V1alpha1.Template.{DployTemplate}
use dploy.V1alpha1.Instance.{DployInstance}
use dploy.V1alpha1.Claim.{DployInstanceClaim}
use dploy.Cluster.{
  Kube, Call, Log, Result, ok, err, Error, not_found, conflict, already_exists, at_capacity, other,
  cached, by_pooled_template,
}
use dploy.Cluster.Traces.{Result-cases}
use dploy.ClaimController.Bind.{
  claim_bind_retries, is_claimable, hash_index, bound_copy, try_candidates, acquire_pooled,
}

-- The start index lies in the candidate list, if there is one.
pub hash_index-lt : (uid : Text) (n : ℕ) → 0 < n → hash_index uid n < n
unfolding hash_index
hash_index-lt uid zero h = elim h [ ]
hash_index-lt uid (suc n) h = omega arith

module _ (kube : Kube) (claim : DployInstanceClaim) (bound_at : Time)
    (IsListed : DployInstance → Type 0) where
  -- An instance that was listed, and free as it was.
  abbrev pub IsCandidate : DployInstance → Type 0
  IsCandidate cand = (is_claimable cand ≡ true) × IsListed cand

  -- The call tries to write the claim's label onto a candidate.
  abbrev pub IsAttempt : Call → Type 0
  IsAttempt c =
      (cand : DployInstance) × IsCandidate cand
      × (c ≡ Call.update_instance (bound_copy claim bound_at cand))

  -- A result is an instance that some attempt's write was answered with, none at all, or an error.
  abbrev pub IsWon : Result (Option DployInstance) → Type 0
  IsWon (ok (some won)) =
      (cand : DployInstance) × (l : Log) × IsCandidate cand
      × (kube.write_instance l (Call.update_instance (bound_copy claim bound_at cand)) ≡ ok won)
  IsWon (ok none) = Unit
  IsWon (err e) = Unit

  -- Behind a log, at most so many attempts were made, and their result.
  abbrev pub Fought : ℕ → Log → Result (Option DployInstance) × Log → Type 0
  Fought n log r =
      (calls : List Call) × (r.1 ≡ calls ++ log)
      × All IsAttempt calls
      × (length calls ≤ n)
      × IsWon r.0

  get_elem?-IsCandidate :
      (cands : List DployInstance) (i : ℕ) (cand : DployInstance)
      → All IsCandidate cands
      → get_elem? cands i ≡ some cand
      → IsCandidate cand
  get_elem?-IsCandidate [] i cand h e = ground arith
  get_elem?-IsCandidate (c ∷ cands) zero cand h e = subst IsCandidate (some-injective c cand e) h.0
  get_elem?-IsCandidate (c ∷ cands) (suc i) cand h e = get_elem?-IsCandidate cands i cand h.1 e

  behind :
      (n : ℕ) (c : Call) (log : Log) (r : Result (Option DployInstance) × Log)
      → IsAttempt c
      → Fought n (c ∷ log) r
      → Fought (suc n) log r
  behind n c log r a (calls, e, h, l, w) = (
    calls ++ c ∷ [],
    e ∙ sym (append_assoc calls (c ∷ []) log),
    All-append IsAttempt calls (c ∷ []) h (a, tt),
    omega (arith, length-append calls (c ∷ [])),
    w,
  )

  -- The call for a candidate.
  abbrev fight : DployInstance → Call
  fight cand = Call.update_instance (bound_copy claim bound_at cand)

  module _ (cands : List DployInstance) (start i left : ℕ) (log : Log) where
    abbrev this_round : Result (Option DployInstance) × Log
    this_round = try_candidates kube claim bound_at cands start i (suc left) log

    abbrev next_round : Log → Result (Option DployInstance) × Log
    next_round = try_candidates kube claim bound_at cands start (i + 1) left

    round_out : get_elem? cands ((start + i) % length cands) ≡ none → this_round ≡ (ok none, log)
    unfolding try_candidates
    round_out e = ground arith

    module _ (cand : DployInstance)
        (at : get_elem? cands ((start + i) % length cands) ≡ some cand) where
      round_won :
          (won : DployInstance)
          → kube.write_instance log (fight cand) ≡ ok won
          → this_round ≡ (ok (some won), fight cand ∷ log)
      unfolding try_candidates
      round_won won e = ground arith

      round_lost :
          (e : Error)
          → kube.write_instance log (fight cand) ≡ err e
          → (this_round ≡ (err e, fight cand ∷ log)) ⊎ (this_round ≡ next_round (fight cand ∷ log))
      unfolding try_candidates
      round_lost not_found h = inr (ground arith)
      round_lost conflict h = inr (ground arith)
      round_lost already_exists h = inl (ground arith)
      round_lost at_capacity h = inl (ground arith)
      round_lost (other t) h = inl (ground arith)

  try_candidates-Fought :
      (cands : List DployInstance) (start i left : ℕ) (log : Log)
      → All IsCandidate cands
      → Fought left log (try_candidates kube claim bound_at cands start i left log)
  unfolding try_candidates
  try_candidates-Fought cands start i zero log h = ([], refl, tt, omega arith, tt)
  try_candidates-Fought cands start i (suc left) log h =
      elim (Option-cases (get_elem? cands ((start + i) % length cands))) [
        | inl out ↦
            subst (Fought (suc left) log) (sym (round_out cands start i left log out))
              ([], refl, tt, omega arith, tt)
        | inr (cand, at) ↦
            let free = get_elem?-IsCandidate cands ((start + i) % length cands) cand h at in
            elim (Result-cases (kube.write_instance log (fight cand))) [
              | inl (won, e) ↦
                  subst (Fought (suc left) log)
                    (sym (round_won cands start i left log cand at won e))
                    (
                      fight cand ∷ [],
                      refl,
                      ((cand, free, refl), tt),
                      omega arith,
                      (cand, log, free, e),
                    )
              | inr (e, h') ↦ elim (round_lost cands start i left log cand at e h') [
                | inl stops ↦
                    subst (Fought (suc left) log) (sym stops)
                      (fight cand ∷ [], refl, ((cand, free, refl), tt), omega arith, tt)
                | inr goes_on ↦ subst (Fought (suc left) log) (sym goes_on) (
                    behind left (fight cand) log _ (cand, free, refl)
                      (try_candidates-Fought cands start (i + 1) left (fight cand ∷ log) h))
              ]
            ]
      ]

  -- Acquiring from a pool lists it once, then makes at most eight attempts, each on an instance of that
  -- list which is free as listed; what it returns is an instance that the API server answered one of
  -- them with.
  pub acquire_pooled-Fought :
      (tmpl : DployTemplate) (items : List DployInstance) (log : Log)
      → All IsListed items
      → kube.list_instances log cached claim.meta.namespace (by_pooled_template tmpl.meta.name)
        ≡ ok items
      → Fought claim_bind_retries
          (Call.list_instances cached claim.meta.namespace (by_pooled_template tmpl.meta.name)
            ∷ log)
          (acquire_pooled kube claim tmpl bound_at log)
  unfolding acquire_pooled
  acquire_pooled-Fought tmpl items log listed_all e =
      let free = select is_claimable items in
      let listed : Log =
        Call.list_instances cached claim.meta.namespace (by_pooled_template tmpl.meta.name) ∷ log in
      let start = hash_index claim.meta.uid (length free) in
      let rounds = min (length free) claim_bind_retries in
      let (calls, trace, attempts, few, won) =
        try_candidates-Fought free start 0 rounds listed
          (All-select IsListed is_claimable items listed_all) in
      let run : acquire_pooled kube claim tmpl bound_at log
          ≡ try_candidates kube claim bound_at free start 0 rounds listed =
        ground arith in
      subst (Fought claim_bind_retries listed) (sym run)
        (calls, trace, attempts, omega (arith, few), won)
