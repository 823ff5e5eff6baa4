-- ===== src/Tests/Owners.antt =====
-- The theorems on who holds an instance at a concrete history.
use dploy.Prelude.{
  ℕ, suc, zero, ◌≡◌, refl, subst, Bool, true, false, none, some, [], arith, if◌then◌else◌, select,
}
use dploy.Prelude.Int.{pos}
use dploy.Prelude.Text.{codes, text_eq}
use dploy.V1alpha1.Instance.{DployInstance}
use dploy.V1alpha1.Claim.{DployInstanceClaim}
use dploy.Cluster.{Key}
use dploy.ClaimController.{
  is_claimable, bound_copy, stamp_if_bound, desired_instance, hash_index, fnv32a, try_candidates,
  acquire_pooled,
}
use dploy.Ttl.{truncate_second, stamp_bound_at}
use dploy.Ownership.History.{
  Stays, Change, untouched, created, deleted, bound, synced, SyncedAt, IsOrderly, IsPrompt,
}
use dploy.Ownership.Exclusive.{NotShared, acquire_pooled_exclusive}
use dploy.Naming
use dploy.Tests.Fixtures.{lab, request}
use dploy.Tests.Timeline.{is_member, member, timeline, stored, worker, worker_server}

-- A second claim for the same template.
abbrev rival : DployInstanceClaim
rival = record request { meta = record (request.meta) { uid = codes "c2" } }

abbrev Changes : Bool → ℕ → Key → Type 0
Changes b t k =
    (c : Change stored t k (if b then timeline t else none) (if b then timeline (suc t) else none))
    × SyncedAt stored (λ m. Stays stored m t k) c

prompt_at : (b : Bool) (t : ℕ) (k : Key) → is_member k ≡ b → Changes b t k
unfolding is_claimable bound_copy stamp_bound_at desired_instance stamp_if_bound text_eq
prompt_at false t k e = (untouched, tt)
prompt_at true zero k e = (bound request (pos 0) refl refl, tt)
prompt_at true (suc zero) k e = (
  synced request (pos 0) none [] 1 (member 2) (λ q. ground arith) (omega arith) (rw e refl) refl
      refl,
  λ t p q.
      (subst (λ m. (x : DployInstance) × (stored m k ≡ some x)) {x = 1} {y = t}
        (omega (arith, p, q)) (member 2, rw e refl)),
)
prompt_at true (suc (suc zero)) k e = (deleted, tt)
prompt_at true (suc (suc (suc zero))) k e = (created, tt)
prompt_at true (suc (suc (suc (suc zero)))) k e = (bound rival (pos 0) refl refl, tt)
prompt_at true (suc (suc (suc (suc (suc t))))) k e = (untouched, tt)

stored-IsPrompt : IsPrompt stored
stored-IsPrompt t k = prompt_at (is_member k) t k refl

stored-IsOrderly : IsOrderly stored
stored-IsOrderly t k = (stored-IsPrompt t k).0

acquire_pooled_exclusive_example : NotShared stored (codes "c1") (member 2) (codes "c2") (member 5)
unfolding acquire_pooled try_candidates hash_index fnv32a select is_claimable bound_copy
    stamp_bound_at text_eq truncate_second
acquire_pooled_exclusive_example =
    acquire_pooled_exclusive stored stored-IsOrderly (worker 1) (worker 4)
      (worker_server 0 1 refl refl) (worker_server 4 4 refl refl) request rival lab lab (pos 0)
      (pos 0) (member 2) (member 5) [] [] _ _ (λ q. ground arith) (λ q. ground arith) refl refl refl
