-- ===== src/Sorting/Ranks.antt =====
-- The rank of an element in a sorted list is the number of elements before it, so it does not depend
-- on the order in which the list came.
use dploy.Prelude.{
  ℕ, suc, ◌≡◌, refl, sym, ap, ◌∙◌, Bool, true, false, inl, inr, some, List, [], ◌∷◌, All, arith,
  ◌<◌, if◌then◌else◌, Bool-cases, length,
}
use dploy.Sorting.{insert_by, sort_by, index_of}

module _ {ℓ} {A : Type ℓ} where
  -- How many elements pass a test.
  unfoldable pub count : (A → Bool) → List A → ℕ
  count p [] = 0
  count p (x ∷ xs) = let n = count p xs in if p x then suc n else n

  module _ (lt : A → A → Bool) where
    count-insert_by :
        (p : A → Bool) (a : A) (xs : List A) → count p (insert_by lt a xs) ≡ count p (a ∷ xs)
    unfolding count insert_by
    count-insert_by p a [] = refl
    count-insert_by p a (x ∷ xs) = ground (arith, count-insert_by p a xs)

    pub count-sort_by : (p : A → Bool) (xs : List A) → count p (sort_by lt xs) ≡ count p xs
    unfolding count sort_by
    count-sort_by p [] = refl
    count-sort_by p (x ∷ xs) =
        ground (arith, count-insert_by p x (sort_by lt xs), count-sort_by p xs)

    length-insert_by : (a : A) (xs : List A) → length (insert_by lt a xs) ≡ suc (length xs)
    unfolding insert_by
    length-insert_by a [] = refl
    length-insert_by a (x ∷ xs) = ground (arith, length-insert_by a xs)

    pub length-sort_by : (xs : List A) → length (sort_by lt xs) ≡ length xs
    unfolding sort_by
    length-sort_by [] = refl
    length-sort_by (x ∷ xs) = length-insert_by x (sort_by lt xs) ∙ ap suc (length-sort_by xs)

    pub All-insert_by {κ} :
        (P : A → Type κ) (a : A) (xs : List A) → P a → All P xs → All P (insert_by lt a xs)
    unfolding insert_by
    All-insert_by P a [] h hs = (h, tt)
    All-insert_by P a (x ∷ xs) h hs =
        let rest = All-insert_by P a xs h hs.1 in
        elim (lt x a) as (λ b. All P (if b then x ∷ insert_by lt a xs else a ∷ x ∷ xs)) [
          | true ↦ (hs.0, rest)
          | false ↦ (h, hs)
        ]

    pub All-sort_by {κ} : (P : A → Type κ) (xs : List A) → All P xs → All P (sort_by lt xs)
    unfolding sort_by
    All-sort_by P [] h = tt
    All-sort_by P (x ∷ xs) h = All-insert_by P x (sort_by lt xs) h.0 (All-sort_by P xs h.1)

    -- No element is before an earlier one.
    abbrev pub IsSorted : List A → Type ℓ
    IsSorted [] = Unit
    IsSorted (x ∷ xs) = All (λ y. lt y x ≡ false) xs × IsSorted xs

    -- A strict weak order.
    pub record IsOrder : Type ℓ where
      pub asym : (a b : A) → lt a b ≡ true → lt b a ≡ false
      pub steps : (a b c : A) → lt a b ≡ false → lt b c ≡ false → lt a c ≡ false

    module _ (o : IsOrder) where
      All-steps :
          (x a : A) (xs : List A)
          → lt x a ≡ false
          → All (λ y. lt y x ≡ false) xs
          → All (λ y. lt y a ≡ false) xs
      All-steps x a [] h hs = tt
      All-steps x a (y ∷ xs) h hs = (o.steps y x a hs.0 h, All-steps x a xs h hs.1)

      insert_by-IsSorted : (a : A) (xs : List A) → IsSorted xs → IsSorted (insert_by lt a xs)
      unfolding insert_by
      insert_by-IsSorted a [] s = (tt, tt)
      insert_by-IsSorted a (x ∷ xs) s =
          let rest = insert_by-IsSorted a xs s.1 in
          elim (Bool-cases (lt x a)) [
            | inl before ↦
                rw before (All-insert_by (λ y. lt y x ≡ false) a xs (o.asym x a before) s.0, rest)
            | inr after ↦ rw after ((after, All-steps x a xs after s.0), s)
          ]

      pub sort_by-IsSorted : (xs : List A) → IsSorted (sort_by lt xs)
      unfolding sort_by
      sort_by-IsSorted [] = tt
      sort_by-IsSorted (x ∷ xs) = insert_by-IsSorted x (sort_by lt xs) (sort_by-IsSorted xs)

    -- What a test has to tell of the element `t` that it is after: those that pass stand where `t`
    -- does in the order, and of any other and `t` one is before the other.
    abbrev pub Finds : (A → Bool) → A → A → Type ℓ
    Finds p t y =
        (p y ≡ true → (b : A) → (lt b y ≡ lt b t) × (lt y b ≡ lt t b))
        × (p y ≡ false → lt t y ≡ false → lt y t ≡ true)

    none_before :
        (p : A → Bool) (t x : A) (xs : List A)
        → ((b : A) → lt b x ≡ lt b t)
        → All (λ y. lt y x ≡ false) xs
        → count (λ y. lt y t) xs ≡ 0
    unfolding count
    none_before p t x [] tie h = refl
    none_before p t x (y ∷ xs) tie h = ground (arith, tie y, none_before p t x xs tie h.1)

    not_before :
        (p : A → Bool) (t x : A) (xs : List A)
        → All (λ y. lt y x ≡ false) xs
        → All (Finds p t) xs
        → 0 < count p xs
        → lt t x ≡ false
    unfolding count
    not_before p t x [] s f h = absurd (omega arith)
    not_before p t x (y ∷ xs) s f h = elim (Bool-cases (p y)) [
      | inl hit ↦ sym ((f.0.0 hit x).1) ∙ s.0
      | inr miss ↦ not_before p t x xs s.1 f.1 (ground arith)
    ]

    rank_sorted :
        (o : IsOrder) (p : A → Bool) (t : A) (xs : List A)
        → IsSorted xs
        → All (Finds p t) xs
        → 0 < count p xs
        → index_of p xs ≡ some (count (λ y. lt y t) xs)
    unfolding index_of count
    rank_sorted o p t [] s f h = absurd (omega arith)
    rank_sorted o p t (x ∷ xs) s f h = elim (Bool-cases (p x)) [
      | inl hit ↦
          ground
            (arith, (f.0.0 hit x).0, o.asym x x, none_before p t x xs (λ b. (f.0.0 hit b).0) s.0)
      | inr miss ↦
          let more : 0 < count p xs = ground arith in
          ground (
            arith,
            f.0.1 miss (not_before p t x xs s.0 f.1 more),
            rank_sorted o p t xs s.1 f.1 more,
          )
    ]

    pub rank_lem :
        (o : IsOrder) (p : A → Bool) (t : A) (xs : List A)
        → All (Finds p t) xs
        → 0 < count p xs
        → index_of p (sort_by lt xs) ≡ some (count (λ y. lt y t) xs)
    rank_lem o p t xs f h =
        rank_sorted o p t (sort_by lt xs) (sort_by-IsSorted o xs) (All-sort_by (Finds p t) xs f)
          (rw (count-sort_by p xs) h)
        ∙ ap some (count-sort_by (λ y. lt y t) xs)
