-- ===== src/Ownership/Permanent.antt =====
-- An instance keeps its claim, whatever the controllers do next.
use mathlib.Core.Option.{some-injective}
use native.Mathlib.Decide.{dec_lt}
use dploy.Prelude.{
  ℕ, zero, suc, ◌≤◌, ◌<◌, ◌≡◌, ◌≢◌, ◌⊎◌, inl, inr, subst, sym, ◌∙◌, ap, Option, some, [], arith,
}
use dploy.Prelude.Text.{Text}
use dploy.V1alpha1.Instance.{DployInstance}
use dploy.Cluster.{Key}
use dploy.InstanceController.{ensure_meta}
use dploy.Ownership.Labels.{is_claimable-claim_uid_of, desired_instance-claim_uid_of}
use dploy.Ownership.History.{
  claim_uid_of, History, Stays, Vacated, Change, untouched, created, deleted, bound, synced,
  labelled, patched, SyncedAt, IsOrderly, IsPrompt,
}

module _ (stored : History) where
  -- A claim was seen to hold what was stored under the name, at that moment or before.
  abbrev IsSeen : ℕ → Key → Text → (ℕ → Type 0) → Type 0
  IsSeen t k u P =
      (m : ℕ) × (seen : DployInstance) × (u ≢ [])
      × (m ≤ t)
      × (stored m k ≡ some seen)
      × (claim_uid_of seen ≡ u)
      × P m

  -- Just before then a synchronisation wrote a claim's uid, though the name had been vacated since the
  -- claim was seen to hold what was stored there.
  abbrev pub IsStale : ℕ → Key → Type 0
  IsStale t k =
      (a : DployInstance) × (stored (suc t) k ≡ some a)
      × IsSeen t k (claim_uid_of a) (λ m. Vacated stored m t k)

  -- What a change does to the holder: nothing, or the instance was free, or it goes to a claim that was
  -- seen to hold it.
  abbrev Moves : ℕ → Key → DployInstance → DployInstance → (ℕ → Type 0) → Type 0
  Moves t k b a P =
      (claim_uid_of a ≡ claim_uid_of b) ⊎ (claim_uid_of b ≡ []) ⊎ IsSeen t k (claim_uid_of a) P

  -- The same where it stayed since that was seen, or something else.
  abbrev Passes : ℕ → Key → DployInstance → DployInstance → Type 0 → Type 0
  Passes t k b a D = Moves t k b a (λ m. Stays stored m t k) ⊎ D

  moved :
      (b' a' b a : DployInstance)
      → ◌≡◌ {A = Option DployInstance} (some b') (some b)
      → ◌≡◌ {A = Option DployInstance} (some a') (some a)
      → claim_uid_of a' ≡ claim_uid_of b'
      → claim_uid_of a ≡ claim_uid_of b
  moved b' a' b a e e' w =
      sym (ap claim_uid_of (some-injective a' a e')) ∙ w ∙ ap claim_uid_of (some-injective b' b e)

  Change-Moves :
      {t : ℕ} {k : Key} {o o' : Option DployInstance} (P : ℕ → Type 0) (c : Change stored t k o o')
      → SyncedAt stored P c
      → (b a : DployInstance) → o ≡ some b
      → o' ≡ some a
      → Moves t k b a P
  unfolding ensure_meta
  Change-Moves P untouched at b a e e' = inl (ap claim_uid_of (some-injective a b (sym e' ∙ e)))
  Change-Moves P created at b a e e' = ground arith
  Change-Moves P deleted at b a e e' = ground arith
  Change-Moves P (bound {b = b'} claim t' free w) at b a e e' =
      inr (inl (sym (ap claim_uid_of (some-injective b' b e)) ∙ is_claimable-claim_uid_of b' free))
  Change-Moves {t} {k} P (synced {b = b'} {a = a'} claim ttl expires_at refs m seen uid le s same w)
        at b a e e' =
      let own : IsSeen t k claim.meta.uid P = (m, seen, uid, le, s, same, at) in
      inr (
        inr (
          subst (λ u. IsSeen t k u P)
            (sym (w ∙ desired_instance-claim_uid_of claim ttl expires_at refs b')
              ∙ ap claim_uid_of (some-injective a' a e'))
            own))
  Change-Moves P (labelled {b = b'} {a = a'} w) at b a e e' = inl (moved b' a' b a e e' w)
  Change-Moves P (patched {b = b'} {a = a'} w) at b a e e' = inl (moved b' a' b a e e' w)

  SyncedAt-always :
      {t : ℕ} {k : Key} {o o' : Option DployInstance} (P : ℕ → Type 0)
      → ((m : ℕ) → P m)
      → (c : Change stored t k o o') → SyncedAt stored P c
  SyncedAt-always P f untouched = tt
  SyncedAt-always P f created = tt
  SyncedAt-always P f deleted = tt
  SyncedAt-always P f (bound claim at free w) = tt
  SyncedAt-always P f (synced claim ttl expires_at refs m seen uid le s same w) = f m
  SyncedAt-always P f (labelled w) = tt
  SyncedAt-always P f (patched w) = tt

  same_moment :
      (m n : ℕ)
      → m ≡ n
      → (k : Key) (i j : DployInstance) → stored m k ≡ some i
      → stored n k ≡ some j
      → claim_uid_of j ≡ claim_uid_of i
  same_moment m n e k i j si sj =
      ap claim_uid_of (some-injective j i (sym sj ∙ subst (λ t. stored t k ≡ some i) e si))

  module _ (k : Key) (D : ℕ → Type 0) where
    abbrev PassesBefore : ℕ → Type 0
    PassesBefore n =
        (t : ℕ)
        → t < n
        → (b a : DployInstance) → stored t k ≡ some b
        → stored (suc t) k ≡ some a
        → Passes t k b a (D t)

    -- Along changes that pass, an instance that a claim holds stays that claim's, or something else came
    -- before.
    kept_along :
        (n : ℕ)
        → PassesBefore n
        → (m : ℕ) → m ≤ n
        → (i j : DployInstance) → stored m k ≡ some i
        → stored n k ≡ some j
        → claim_uid_of i ≢ []
        → Stays stored m n k
        → (claim_uid_of j ≡ claim_uid_of i) ⊎ ((t : ℕ) × (t < n) × D t)
    kept_along zero passes m le i j si sj held stays =
        inl (same_moment m zero (omega (arith, le)) k i j si sj)
    kept_along (suc n) passes m le i j si sj held stays = elim (dec_lt m (suc n)) [
      | no last ↦ inl (same_moment m (suc n) (omega (arith, le, last)) k i j si sj)
      | yes before ↦
          let (b, sb) = stays n (omega (arith, before)) (omega arith) in
          let passes' : PassesBefore n = λ t lt b a sb sa. passes t (omega (arith, lt)) b a sb sa in
          elim (kept_along n passes' m (omega (arith, before)) i b si sb held
            (λ t p q. stays t p (omega (arith, q)))) [
              | inr (t, lt, d) ↦ inr (t, omega (arith, lt), d)
              | inl ih ↦ elim (passes n (omega arith) b j sb sj) [
                | inr d ↦ inr (n, omega arith, d)
                | inl (inl same) ↦ inl (same ∙ ih)
                | inl (inr (inl free)) ↦ absurd (held (sym ih ∙ free))
                | inl (inr (inr (m', seen, uid, le', s, same, stays'))) ↦
                    elim (kept_along n passes' m' le' seen b s sb (λ q. uid (sym same ∙ q))
                      stays') [
                        | inr (t, lt, d) ↦ inr (t, omega (arith, lt), d)
                        | inl own ↦ inl (sym same ∙ sym own ∙ ih)
                      ]
              ]
            ]
    ]

  -- Where every synchronisation is prompt, the claim keeps it in any case.
  pub claim_uid_of-always :
      IsPrompt stored
      → (n m : ℕ) → m ≤ n
      → (k : Key) (i j : DployInstance) → stored m k ≡ some i
      → stored n k ≡ some j
      → claim_uid_of i ≢ []
      → Stays stored m n k
      → claim_uid_of j ≡ claim_uid_of i
  claim_uid_of-always prompt n m le k i j si sj held stays =
      elim (kept_along k (λ t. ⊥) n
        (λ t lt b a sb sa.
          let (c, at) = prompt t k in inl (Change-Moves (λ m. Stays stored m t k) c at b a sb sa))
        m le i j si sj held stays) [ inl same ↦ same | inr (t, lt, never) ↦ absurd never ]

  -- A name that is not vacated is never free again once a claim holds what is stored there.
  pub claim_uid_of-held :
      IsOrderly stored
      → (n m : ℕ) → m ≤ n
      → (k : Key) (i j : DployInstance) → stored m k ≡ some i
      → stored n k ≡ some j
      → claim_uid_of i ≢ []
      → Stays stored m n k
      → claim_uid_of j ≢ []
  claim_uid_of-held orderly zero m le k i j si sj held stays e =
      held (sym (same_moment m zero (omega (arith, le)) k i j si sj) ∙ e)
  claim_uid_of-held orderly (suc n) m le k i j si sj held stays e = elim (dec_lt m (suc n)) [
    | no last ↦ held (sym (same_moment m (suc n) (omega (arith, le, last)) k i j si sj) ∙ e)
    | yes before ↦
        let (b, sb) = stays n (omega (arith, before)) (omega arith) in
        let still =
          claim_uid_of-held orderly n m (omega (arith, before)) k i b si sb held
            (λ t p q. stays t p (omega (arith, q))) in
        let c = orderly n k in
        elim (Change-Moves (λ m. Unit {0}) c (SyncedAt-always (λ m. Unit {0}) (λ m. tt) c) b j sb
          sj) [
            | inl same ↦ still (sym same ∙ e)
            | inr (inl free) ↦ still free
            | inr (inr (m', seen, uid, le', s, same, any)) ↦ uid e
          ]
  ]
