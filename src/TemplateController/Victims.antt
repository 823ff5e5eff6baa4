-- ===== src/TemplateController/Victims.antt =====
-- What a purge deletes, and in which order it visits the members of a pool.
use dploy.Prelude.{
  ℕ, suc, ◌≤◌, ◌≡◌, true, false, some, List, [], ◌∷◌, arith, Bool-cases, ◌⊎◌, length, inl, inr,
  ◌==◌, if◌then◌else◌, subst, sym,
}
use dploy.Prelude.Int.{pos, pos_part, ◌-ℤ◌, ltb_ℤ}
use dploy.V1alpha1.Template.{DployTemplate}
use dploy.V1alpha1.Instance.{DployInstance}
use dploy.Cluster.{
  Kube, key, direct, pure, Call, Log, Result, ok, err, Error, not_found, conflict, already_exists,
  at_capacity, other,
}
use dploy.Cluster.Traces.{Result-cases}
use dploy.TemplateController.Purged.{
  Store, start, read, refused, PurgedTo, as_read-IsFree, via_read, via_refused, via_deleted,
}
use dploy.TemplateController.Pool.{is_available, Tally, desired_warm}
use dploy.TemplateController.Reconcile.{shrink}
use dploy.TemplateController.Purge.{is_purgeable, as_read, purge, purge_surplus, sort_purge_victims}

module _ (kube : Kube) where
  module _ (inst : DployInstance) (victims : List DployInstance) (excess before available : ℕ)
      (log : Log) where
    abbrev this_round : Result (ℕ × ℕ) × Log
    this_round = purge kube (inst ∷ victims) excess before available log

    abbrev seen : Log
    seen = Call.get_instance direct (key inst.meta.namespace inst.meta.name) ∷ log

    abbrev read_now : Result DployInstance
    read_now = kube.get_instance log direct (key inst.meta.namespace inst.meta.name)

    round_full : (before == excess) ≡ true → this_round ≡ (ok (before, available), log)
    unfolding purge
    round_full h = ground arith

    module _ (more : (before == excess) ≡ false) where
      round_unread :
          (e : Error)
          → read_now ≡ err e
          → (this_round ≡ (err e, seen))
            ⊎ (this_round ≡ purge kube victims excess before available seen)
      unfolding purge
      round_unread not_found h = inr (ground arith)
      round_unread conflict h = inl (ground arith)
      round_unread already_exists h = inl (ground arith)
      round_unread at_capacity h = inl (ground arith)
      round_unread (other t) h = inl (ground arith)

      module _ (fresh : DployInstance) (e : read_now ≡ ok fresh) where
        round_kept :
            is_purgeable fresh ≡ false
            → this_round ≡ purge kube victims excess before available seen
        unfolding purge
        round_kept h = ground arith

        abbrev sent : Call
        sent = Call.delete_instance fresh (some (as_read fresh))

        module _ (free : is_purgeable fresh ≡ true) where
          abbrev now_available : ℕ
          now_available = if is_available fresh then suc available else available

          round_deleted :
              kube.write seen sent ≡ ok tt
              → this_round ≡ purge kube victims excess (suc before) now_available (sent ∷ seen)
          unfolding purge
          round_deleted h = ground arith

          round_refused :
              (e' : Error)
              → kube.write seen sent ≡ err e'
              → (this_round ≡ (err e', sent ∷ seen))
                ⊎ (this_round ≡ purge kube victims excess before available (sent ∷ seen))
          unfolding purge
          round_refused not_found h = inr (ground arith)
          round_refused conflict h = inr (ground arith)
          round_refused already_exists h = inl (ground arith)
          round_refused at_capacity h = inl (ground arith)
          round_refused (other t) h = inl (ground arith)

module _ (kube : Kube) (store : Store kube) where
  -- The round of a member that is free, where the later rounds are as they should be.
  visited :
      (inst : DployInstance) (victims : List DployInstance) (excess before available : ℕ)
      (log : Log) (more : (before == excess) ≡ false) (fresh : DployInstance)
      (r : kube.get_instance log direct (key inst.meta.namespace inst.meta.name) ≡ ok fresh)
      (free : is_purgeable fresh ≡ true)
      → before ≤ excess
      → ((b a : ℕ) (l : Log)
          → b ≤ excess
          → PurgedTo kube store l excess b a (purge kube victims excess b a l))
      → PurgedTo kube store log excess before available
          (purge kube (inst ∷ victims) excess before available log)
  visited inst victims excess before available log more fresh r free h ih =
      let k = key inst.meta.namespace inst.meta.name in
      let s : Log = Call.get_instance direct k ∷ log in
      let c = as_read fresh in
      let s' : Log = Call.delete_instance fresh (some c) ∷ s in
      let To : Result (ℕ × ℕ) × Log → Type 0 = PurgedTo kube store log excess before available in
      elim (Result-cases (kube.write s (Call.delete_instance fresh (some c)))) [
        | inl (u, gone) ↦
            let now = if is_available fresh then suc available else available in
            let rest = purge kube victims excess (suc before) now s' in
            subst To
              (sym (
                round_deleted kube inst victims excess before available log more fresh r free gone))
              (via_read kube store k log excess before available rest (
                via_deleted kube store fresh c s excess before available now rest
                  (gone, as_read-IsFree kube store log s k fresh r free gone) (ground arith)
                  (ih (suc before) now s' (ground arith))))
        | inr (e, kept) ↦
            elim (round_refused kube inst victims excess before available log more fresh r free e
              kept) [
                | inl stops ↦
                    subst To (sym stops) (0, refused fresh c e kept (read k start), omega arith, tt)
                | inr skips ↦
                    let rest = purge kube victims excess before available s' in
                    subst To (sym skips) (
                      via_read kube store k log excess before available rest (
                        via_refused kube store fresh c e s excess before available rest kept
                          (ih before available s' h)))
              ]
      ]

  purge-PurgedTo :
      (victims : List DployInstance) (excess before available : ℕ) (log : Log)
      → before ≤ excess
      → PurgedTo kube store log excess before available
          (purge kube victims excess before available log)
  unfolding purge
  purge-PurgedTo [] excess before available log h =
      (0, start, omega arith, (omega arith, omega arith))
  purge-PurgedTo (inst ∷ victims) excess before available log h =
      let To : Result (ℕ × ℕ) × Log → Type 0 = PurgedTo kube store log excess before available in
      let k = key inst.meta.namespace inst.meta.name in
      let s = seen kube inst victims excess before available log in
      let skipped =
        via_read kube store k log excess before available
          (purge kube victims excess before available s)
          (purge-PurgedTo victims excess before available s h) in
      elim (Bool-cases (before == excess)) [
        | inl full ↦
            subst To (sym (round_full kube inst victims excess before available log full))
              (0, start, omega arith, (omega arith, omega arith))
        | inr more ↦ elim (Result-cases (kube.get_instance log direct k)) [
          | inr (e, unread) ↦
              elim (round_unread kube inst victims excess before available log more e unread) [
                | inl stops ↦ subst To (sym stops) (0, read k start, omega arith, tt)
                | inr skips ↦ subst To (sym skips) skipped
              ]
          | inl (fresh, r) ↦ elim (Bool-cases (is_purgeable fresh)) [
            | inr kept ↦
                subst To
                  (sym (round_kept kube inst victims excess before available log more fresh r kept))
                  skipped
            | inl free ↦
                visited inst victims excess before available log more fresh r free h
                  (purge-PurgedTo victims excess)
          ]
        ]
      ]

  -- On a server that keeps its preconditions, shrinking a pool calls it only by uncached reads and
  -- by deletes with preconditions, and every delete that it accepts removes an instance that no
  -- claim holds at that moment; at most the surplus over the desired number is removed, and a run
  -- that succeeds reports the number of deletes accepted, and no more of them as Available.
  pub shrink-PurgedTo :
      (tmpl : DployTemplate) (t : Tally) (log : Log)
      → PurgedTo kube store log
          (pos_part (pos (length t.unclaimed) -ℤ desired_warm tmpl))
          0
          0
          (shrink kube tmpl t log)
  unfolding shrink purge_surplus
  shrink-PurgedTo tmpl t log =
      let surplus = pos_part (pos (length t.unclaimed) -ℤ desired_warm tmpl) in
      let run = purge-PurgedTo (sort_purge_victims t.unclaimed) surplus 0 0 log (omega arith) in
      elim (ltb_ℤ (desired_warm tmpl) (pos (length t.unclaimed)))
        as (λ b.
          PurgedTo kube store log surplus 0 0
            ((if b then purge_surplus kube t.unclaimed surplus else pure (0, 0)) log)) [
              | true ↦ run
              | false ↦ (0, start, omega arith, (omega arith, omega arith))
            ]
