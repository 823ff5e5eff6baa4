-- ===== src/Ownership/Kept.antt =====
-- syncInstance writes only on an instance that its claim holds.
use dploy.Prelude.{ℕ, suc, ◌≤◌, ◌<◌, ◌≡◌, ◌⊎◌, some}
use dploy.V1alpha1.Instance.{DployInstance}
use dploy.V1alpha1.Claim.{DployInstanceClaim}
use dploy.Cluster.{Kube}
use dploy.Ownership.History.{key_of, claim_uid_of, History, Server, Vacated}
use dploy.Ownership.Permanent.{IsStale}

module _ (stored : History) (kube : Kube) (server : Server stored kube) where
  module _ (claim : DployInstanceClaim) (inst : DployInstance) where
    -- At that moment the claim holds what is stored under the instance's name.
    abbrev pub IsOwnAt : ℕ → Type 0
    IsOwnAt t =
        (b : DployInstance) × (stored t (key_of inst) ≡ some b) × (claim_uid_of b ≡ claim.meta.uid)

    -- An update of the instance that the server accepted at some moment since, with the answer, which
    -- the claim holds. Just before it the claim held the instance; unless its name was vacated since it
    -- was shown, or a synchronisation under it was stale, or the moment is behind the last `n`.
    abbrev pub WritesOwn : ℕ → ℕ → DployInstance → Type 0
    WritesOwn n m j =
        (t : ℕ) × (m ≤ t)
        × (stored (suc t) (key_of inst) ≡ some j)
        × (claim_uid_of j ≡ claim.meta.uid)
        × ((n < t)
            ⊎ IsOwnAt t
            ⊎ Vacated stored m t (key_of inst)
            ⊎ ((s : ℕ) × (s < t) × IsStale stored s (key_of inst)))
