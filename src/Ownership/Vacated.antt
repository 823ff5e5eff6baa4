-- ===== src/Ownership/Vacated.antt =====
-- Whether a name was vacated between two moments.
use native.Mathlib.Decide.{dec_lt}
use dploy.Prelude.{
  ℕ, zero, suc, ◌≤◌, ◌<◌, ◌≡◌, ◌⊎◌, inl, inr, subst, none, some, arith, Option-cases,
}
use dploy.V1alpha1.Instance.{DployInstance}
use dploy.Cluster.{Key}
use dploy.Ownership.History.{History, Stays, Vacated}

module _ (stored : History) where
  abbrev Here : Key → ℕ → Type 0
  Here k t = (i : DployInstance) × (stored t k ≡ some i)

  gone_before :
      (m n : ℕ) (k : Key)
      → ((t : ℕ) × (m ≤ t) × (t < n) × (stored t k ≡ none)) ⊎ ((t : ℕ) → m ≤ t → t < n → Here k t)
  gone_before m zero k = inr (λ t p q. absurd (omega (arith, q)))
  gone_before m (suc n) k = elim (gone_before m n k) [
    | inl (t, p, q, gone) ↦ inl (t, p, omega (arith, q), gone)
    | inr stays ↦ elim (dec_lt n m) [
      | yes outside ↦ inr (λ t p q. absurd (omega (arith, p, q, outside)))
      | no inside ↦ elim (Option-cases (stored n k)) [
        | inl gone ↦ inl (n, omega (arith, inside), omega arith, gone)
        | inr here ↦ inr (λ t p q. elim (dec_lt t n) [
          | yes before ↦ stays t p before
          | no last ↦ subst (Here k) (omega (arith, q, last)) here
        ])
      ]
    ]
  ]

  -- Whether a name was vacated is decided by looking at each moment.
  pub Vacated-or-Stays : (m n : ℕ) (k : Key) → Vacated stored m n k ⊎ Stays stored m n k
  Vacated-or-Stays m n k = elim (gone_before m (suc n) k) [
    | inl (t, p, q, gone) ↦ inl (t, p, omega (arith, q), gone)
    | inr stays ↦ inr (λ t p q. stays t p (omega (arith, q)))
  ]
