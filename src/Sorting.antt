-- ===== src/Sorting.antt =====
-- sort.Slice with a comparison, as insertion sort: where no two elements tie, every sort gives this
-- list.
pub mod Ranks
use dploy.Prelude.{ℕ, suc, Bool, Option, none, some, List, [], ◌∷◌, if◌then◌else◌}

module _ {ℓ} {A : Type ℓ} where
  unfoldable pub insert_by : (A → A → Bool) → A → List A → List A
  insert_by lt a [] = a ∷ []
  insert_by lt a (x ∷ xs) = let rest = insert_by lt a xs in if lt x a then x ∷ rest else a ∷ x ∷ xs

  unfoldable pub sort_by : (A → A → Bool) → List A → List A
  sort_by lt [] = []
  sort_by lt (x ∷ xs) = insert_by lt x (sort_by lt xs)

  -- The index of the first element that passes the test.
  unfoldable pub index_of : (A → Bool) → List A → Option ℕ
  index_of p [] = none
  index_of p (x ∷ xs) =
      let rest = index_of p xs in
      if p x then some 0 else elim rest [ none ↦ none | some i ↦ some (suc i) ]
