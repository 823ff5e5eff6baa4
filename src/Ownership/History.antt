-- ===== src/Ownership/History.antt =====
-- A cluster's history of instances, what a worker's reads and writes have to do with it, and the
-- changes that the controllers make.
use dploy.Prelude.{ℕ, suc, ◌≤◌, ◌<◌, ◌≡◌, ◌≢◌, true, Option, none, some, [], ◌∷◌, All, List}
use dploy.Prelude.Int.{ℤ}
use dploy.Prelude.Text.{Text}
use dploy.V1alpha1.Common.{Time, value, OwnerReference}
use dploy.V1alpha1.Instance.{DployInstance}
use dploy.V1alpha1.Claim.{DployInstanceClaim}
use dploy.Cluster.{Kube, Key, key, Reader, Selector, by_claim_uid, Call, Log, ok}
use dploy.ClaimController.{is_claimable, bound_copy, desired_instance}
use dploy.InstanceController.{ensure_meta}

abbrev pub key_of : DployInstance → Key
key_of i = key i.meta.namespace i.meta.name

-- The uid of the claim that holds the instance, or "".
abbrev pub claim_uid_of : DployInstance → Text
claim_uid_of i = value i.meta.labels.claim_uid

abbrev pub History : Type 0
History = ℕ → Key → Option DployInstance

module _ (stored : History) where
  -- The instance was stored as it is at that moment or before it.
  abbrev pub IsShown : ℕ → DployInstance → Type 0
  IsShown n i = (m : ℕ) × (m ≤ n) × (stored m (key_of i) ≡ some i)

  -- An update was accepted at a moment: what was stored had the version that the update carries, and
  -- what is stored next is the answer.
  abbrev pub Accepted : ℕ → DployInstance → DployInstance → Type 0
  Accepted t i answer =
      (before : DployInstance) × (stored t (key_of i) ≡ some before)
      × (before.meta.resource_version ≡ i.meta.resource_version)
      × (stored (suc t) (key_of i) ≡ some answer)
      × (key_of answer ≡ key_of i)
      × (claim_uid_of answer ≡ claim_uid_of i)

  -- A worker's API server answers from the history: lists and reads show what is or was stored, an
  -- update is accepted only on the version it carries, and a version never has two contents. A list
  -- by a claim's uid holds what has that label. Time does not go back from one call to the next.
  pub record Server (kube : Kube) : Type 0 where
    pub moment : Log → ℕ
    pub onward : (l : Log) (c : Call) → moment l ≤ moment (c ∷ l)
    pub lists :
        (l : Log) (rd : Reader) (ns : Text) (s : Selector) (is : List DployInstance)
        → kube.list_instances l rd ns s ≡ ok is
        → All (IsShown (moment l)) is
    pub selects :
        (l : Log) (rd : Reader) (ns uid : Text) (is : List DployInstance)
        → kube.list_instances l rd ns (by_claim_uid uid) ≡ ok is
        → All (λ i. claim_uid_of i ≡ uid) is
    pub reads :
        (l : Log) (rd : Reader) (k : Key) (i : DployInstance)
        → kube.get_instance l rd k ≡ ok i
        → (key_of i ≡ k) × IsShown (moment l) i
    pub updates :
        (l : Log) (i answer : DployInstance)
        → kube.write_instance l (Call.update_instance i) ≡ ok answer
        → Accepted (moment l) i answer
    pub versions :
        (m n : ℕ) (k : Key) (i j : DployInstance)
        → stored m k ≡ some i
        → stored n k ≡ some j
        → i.meta.resource_version ≡ j.meta.resource_version
        → i ≡ j

  -- From one moment to another something was stored under the name at all times.
  abbrev pub Stays : ℕ → ℕ → Key → Type 0
  Stays m n k = (t : ℕ) → m ≤ t → t ≤ n → (i : DployInstance) × (stored t k ≡ some i)

  abbrev pub Vacated : ℕ → ℕ → Key → Type 0
  Vacated m n k = (t : ℕ) × (m ≤ t) × (t ≤ n) × (stored t k ≡ none)

  -- What a moment does to a name. A synchronisation writes for a claim whose uid was stored under the
  -- name when the claim's worker looked it up, at that moment or before; it writes on whatever is
  -- stored there by then, as syncInstance reads the instance again by its name alone.
  pub data Change (t : ℕ) (k : Key) : Option DployInstance → Option DployInstance → Type 0 where
    untouched : {o : Option DployInstance} → Change t k o o
    created : {a : DployInstance} → Change t k none (some a)
    deleted : {o : Option DployInstance} → Change t k o none
    bound :
        {b a : DployInstance} (claim : DployInstanceClaim) (at : Time)
        → is_claimable b ≡ true
        → claim_uid_of a ≡ claim_uid_of (bound_copy claim at b)
        → Change t k (some b) (some a)
    synced :
        {b a : DployInstance} (claim : DployInstanceClaim) (ttl : ℤ) (expires_at : Option Time)
        (refs : List OwnerReference) (m : ℕ) (seen : DployInstance)
        → claim.meta.uid ≢ []
        → m ≤ t
        → stored m k ≡ some seen
        → claim_uid_of seen ≡ claim.meta.uid
        → claim_uid_of a ≡ claim_uid_of (desired_instance claim ttl expires_at refs b)
        → Change t k (some b) (some a)
    labelled :
        {b a : DployInstance}
        → claim_uid_of a ≡ claim_uid_of (ensure_meta b).0
        → Change t k (some b) (some a)
    patched : {b a : DployInstance} → claim_uid_of a ≡ claim_uid_of b → Change t k (some b) (some a)

  -- Of a synchronisation, what holds of the moment of its look-up.
  abbrev pub SyncedAt :
      {t : ℕ} {k : Key} {o o' : Option DployInstance} → (ℕ → Type 0) → Change t k o o' → Type 0
  SyncedAt P (synced claim ttl expires_at refs m seen held le s u w) = P m
  SyncedAt P _ = Unit

  abbrev pub IsOrderlyBefore : ℕ → Type 0
  IsOrderlyBefore n = (t : ℕ) → t < n → (k : Key) → Change t k (stored t k) (stored (suc t) k)

  abbrev pub IsOrderly : Type 0
  IsOrderly = (t : ℕ) (k : Key) → Change t k (stored t k) (stored (suc t) k)

  -- Every change is a controller's, and no name was vacated between the look-up of a synchronisation
  -- and its write.
  abbrev pub IsPrompt : Type 0
  IsPrompt =
      (t : ℕ) (k : Key)
      → (c : Change t k (stored t k) (stored (suc t) k)) × SyncedAt (λ m. Stays m t k) c
