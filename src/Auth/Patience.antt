-- ===== src/Auth/Patience.antt =====
-- How long the API server waits for the identity provider when it starts.
use dploy.Prelude.{
  ℕ, ◌+◌, ◌*◌, ◌≤◌, ◌<◌, ◌≡◌, Option, none, some, List, [], ◌∷◌, arith, ◌∙◌, zero, suc, refl, sym,
  subst, ◌==◌, Bool-cases, inl, inr,
}
use dploy.Auth.Provider.{Discovery, millisecond, next_delay, discover, new_provider_with_retry}

abbrev pub total : List ℕ → ℕ
total [] = 0
total (d ∷ ds) = d + total ds

-- The search from attempt i on, with so many more allowed: where it stopped, and why.
abbrev Searched : {A : Type 0} → (ℕ → Option A) → ℕ → ℕ → Discovery A → Type 0
Searched new_provider left i d =
    (i ≤ d.attempts)
    × (d.attempts ≤ left + i)
    × (d.provider ≡ new_provider d.attempts)
    × ((j : ℕ) → i ≤ j → j < d.attempts → new_provider j ≡ none)
    × (d.provider ≡ none → d.attempts ≡ left + i)

module _ {A : Type 0} (new_provider : ℕ → Option A) where
  discover_goes_on :
      (left i delay : ℕ) (slept : List ℕ)
      → new_provider i ≡ none
      → discover new_provider left (suc i) (next_delay delay) (delay ∷ slept)
        ≡ discover new_provider (suc left) i delay slept
  unfolding discover
  discover_goes_on left i delay slept h = ground (arith, h)

  discover_stops :
      (left i delay : ℕ) (slept : List ℕ) (p : A)
      → new_provider i ≡ some p
      → discover new_provider (suc left) i delay slept
        ≡ record { provider = some p; delays = slept; attempts = i }
  unfolding discover
  discover_stops left i delay slept p h = ground (arith, h)

  earlier :
      (left i : ℕ) (d : Discovery A)
      → new_provider i ≡ none
      → Searched new_provider left (suc i) d
      → Searched new_provider (suc left) i d
  earlier left i d h (from, upto, gives, before, spent) = (
    omega arith,
    omega arith,
    gives,
    λ j le lt. elim (Bool-cases (i == j)) [
      | inl same ↦ subst (λ k. new_provider k ≡ none) (ground (arith, same)) h
      | inr other ↦ before j (ground (arith, other)) lt
    ],
    λ e. ground (arith, spent e),
  )

  search_from :
      (left i delay : ℕ) (slept : List ℕ) (r : Option A)
      → new_provider i ≡ r
      → Searched new_provider left
          (suc i)
          (discover new_provider left (suc i) (next_delay delay) (delay ∷ slept))
      → Searched new_provider (suc left) i (discover new_provider (suc left) i delay slept)
  search_from left i delay slept none h later =
      subst (Searched new_provider (suc left) i) (discover_goes_on left i delay slept h) (
        earlier left i (discover new_provider left (suc i) (next_delay delay) (delay ∷ slept)) h
          later)
  search_from left i delay slept (some p) h later = rw (discover_stops left i delay slept p h) (
    omega arith,
    omega arith,
    sym h,
    λ j le lt. absurd (omega arith),
    λ e. absurd (ground (arith, e)),
  )

  discover-Searched :
      (left i delay : ℕ) (slept : List ℕ)
      → Searched new_provider left i (discover new_provider left i delay slept)
  unfolding discover
  discover-Searched zero i delay slept =
      (omega arith, omega arith, refl, λ j le lt. absurd (omega arith), λ e. omega arith)
  discover-Searched (suc left) i delay slept =
      search_from left i delay slept (new_provider i) refl
        (discover-Searched left (suc i) (next_delay delay) (delay ∷ slept))

-- The discovery makes at most five attempts and sleeps at most seven and a half seconds between them;
-- it finds the provider of the first attempt that has one, and none only where all five have none.
pub new_provider_with_retry_lem :
    {A : Type 0} (new_provider : ℕ → Option A)
    → let d = new_provider_with_retry new_provider in
      (d.attempts ≤ 5)
      × (total d.delays ≤ 7500 * millisecond)
      × (d.provider ≡ new_provider d.attempts)
      × ((i : ℕ) → 1 ≤ i → i < d.attempts → new_provider i ≡ none)
      × (d.provider ≡ none → (i : ℕ) → 1 ≤ i → i ≤ 5 → new_provider i ≡ none)
unfolding new_provider_with_retry discover next_delay
new_provider_with_retry_lem new_provider =
    let (from, upto, gives, before, spent) =
      discover-Searched new_provider 4 1 (500 * millisecond) [] in
    (
      upto,
      ground arith,
      gives,
      before,
      λ e i lo hi.
          let n = (new_provider_with_retry new_provider).attempts in
          elim (Bool-cases (i == n)) [
            | inl last ↦
                let there : i ≡ n = ground (arith, last) in
                subst (λ k. new_provider k ≡ none) (sym there) (sym gives ∙ e)
            | inr other ↦ before i lo (ground (arith, other, spent e, hi))
          ],
    )
