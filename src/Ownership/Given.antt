-- ===== src/Ownership/Given.antt =====
-- A claim that gives its environment back deletes only what it holds.
use dploy.Prelude.{ℕ, ◌≤◌, ◌≡◌, ◌⊎◌, some, none, ◌∷◌}
use dploy.V1alpha1.Instance.{DployInstance}
use dploy.V1alpha1.Claim.{DployInstanceClaim}
use dploy.Cluster.{Kube, Call, Log}
use dploy.Cluster.Requests.{delete_instance}
use dploy.Ownership.History.{key_of, claim_uid_of, History, Server, Vacated}

module _ (stored : History) (kube : Kube) (server : Server stored kube) where
  -- At that moment the claim holds what is stored under the instance's name, unless the name was
  -- vacated since it was shown.
  abbrev pub HeldAt : DployInstanceClaim → DployInstance → ℕ → ℕ → Type 0
  HeldAt claim inst m t =
      Vacated stored m t (key_of inst)
      ⊎ ((b : DployInstance) × (stored t (key_of inst) ≡ some b)
          × (claim_uid_of b ≡ claim.meta.uid))

  -- The last call deletes an instance that the claim holds at that moment, unless its name was vacated
  -- since it was shown.
  abbrev pub DeletesOwn : DployInstanceClaim → Log → Log → Type 0
  DeletesOwn claim log end =
      (inst : DployInstance) × (end ≡ Call.delete_instance inst none ∷ log)
      × ((m : ℕ) × (m ≤ server.moment log) × HeldAt claim inst m (server.moment log))
