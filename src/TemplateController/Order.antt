-- ===== src/TemplateController/Order.antt =====
-- The order in which a purge visits its victims.
use dploy.Prelude.{◌<◌, ◌⊎◌, inl, inr, ◌≡◌, Bool, true, false, List, [], ◌∷◌, All, arith}
use dploy.Prelude.Text.{text_lt_asym, text_lt_steps}
use dploy.V1alpha1.Instance.{InstancePhase, DployInstance}
use dploy.Ttl.Before.{
  NotAfter, time_before-NotAfter, time_before_irrefl, time_before_asym, time_before_steps,
  time_eq_before,
}
use dploy.Ttl.{time_before}
use dploy.Sorting.Ranks.{count, count-sort_by, IsOrder, IsSorted, sort_by-IsSorted}
use dploy.TemplateController.Purge.{purge_rank, goes_first, sort_purge_victims}

goes_first_asym : (a b : DployInstance) → goes_first a b ≡ true → goes_first b a ≡ false
unfolding goes_first
goes_first_asym a b h = ground (
  arith,
  time_before_asym b.meta.creation_timestamp a.meta.creation_timestamp,
  time_eq_before a.meta.creation_timestamp b.meta.creation_timestamp,
  time_eq_before b.meta.creation_timestamp a.meta.creation_timestamp,
  text_lt_asym a.meta.name b.meta.name,
)

goes_first_steps :
    (a b c : DployInstance)
    → goes_first a b ≡ false
    → goes_first b c ≡ false
    → goes_first a c ≡ false
unfolding goes_first
goes_first_steps a b c h k = ground (
  arith,
  time_eq_before a.meta.creation_timestamp b.meta.creation_timestamp,
  time_eq_before b.meta.creation_timestamp c.meta.creation_timestamp,
  time_eq_before a.meta.creation_timestamp c.meta.creation_timestamp,
  time_eq_before c.meta.creation_timestamp a.meta.creation_timestamp,
  time_before_steps c.meta.creation_timestamp b.meta.creation_timestamp a.meta.creation_timestamp,
  time_before_steps b.meta.creation_timestamp a.meta.creation_timestamp c.meta.creation_timestamp,
  time_before_steps a.meta.creation_timestamp c.meta.creation_timestamp b.meta.creation_timestamp,
  time_before_asym a.meta.creation_timestamp b.meta.creation_timestamp,
  time_before_asym b.meta.creation_timestamp c.meta.creation_timestamp,
  text_lt_steps a.meta.name b.meta.name c.meta.name,
)

goes_first-IsOrder : IsOrder goes_first
goes_first-IsOrder = record { asym = goes_first_asym; steps = goes_first_steps }

abbrev is_failed : DployInstance → Bool
is_failed inst = elim inst.status.phase [ InstancePhase.failed ↦ true | _ ↦ false ]

abbrev is_ready : DployInstance → Bool
is_ready inst = elim inst.status.phase [ InstancePhase.available ↦ true | _ ↦ false ]

-- Of two members the first is worth no more: it is Failed and the other is not, or only the other is
-- Available, or they are alike in this and the first was not created before the other.
abbrev pub NoDearer : DployInstance → DployInstance → Type 0
NoDearer x y =
    ((is_failed x ≡ true) × (is_failed y ≡ false))
    ⊎ ((is_ready x ≡ false) × (is_ready y ≡ true))
    ⊎ ((is_failed x ≡ is_failed y)
        × (is_ready x ≡ is_ready y)
        × NotAfter y.meta.creation_timestamp x.meta.creation_timestamp)

-- No member is visited before one that is worth less.
abbrev pub WorthlessFirst : List DployInstance → Type 0
WorthlessFirst [] = Unit
WorthlessFirst (x ∷ xs) = All (NoDearer x) xs × WorthlessFirst xs

rank-is_failed :
    (x y : DployInstance)
    → purge_rank x ≡ purge_rank y
    → (is_failed x ≡ is_failed y) × (is_ready x ≡ is_ready y)
unfolding purge_rank
rank-is_failed x y h = ground arith

rank_below :
    (x y : DployInstance)
    → purge_rank x < purge_rank y
    → ((is_failed x ≡ true) × (is_failed y ≡ false)) ⊎ ((is_ready x ≡ false) × (is_ready y ≡ true))
unfolding purge_rank
rank_below x y h = ground arith

goes_first-cases :
    (x y : DployInstance)
    → goes_first y x ≡ false
    → (purge_rank x < purge_rank y)
      ⊎ ((purge_rank x ≡ purge_rank y)
          × (time_before x.meta.creation_timestamp y.meta.creation_timestamp ≡ false))
unfolding goes_first
goes_first-cases x y h = ground (
  arith,
  time_eq_before y.meta.creation_timestamp x.meta.creation_timestamp,
  time_before_irrefl x.meta.creation_timestamp,
)

goes_first-NoDearer : (x y : DployInstance) → goes_first y x ≡ false → NoDearer x y
goes_first-NoDearer x y h = elim (goes_first-cases x y h) [
  | inl below ↦ elim (rank_below x y below) [
    | inl failed ↦ inl failed
    | inr ready ↦ inr (inl ready)
  ]
  | inr (same, newer) ↦
      let alike = rank-is_failed x y same in
      inr (
        inr (
          alike.0,
          alike.1,
          time_before-NotAfter y.meta.creation_timestamp x.meta.creation_timestamp newer,
        ))
]

All-NoDearer :
    (x : DployInstance) (xs : List DployInstance)
    → All (λ y. goes_first y x ≡ false) xs
    → All (NoDearer x) xs
All-NoDearer x [] h = tt
All-NoDearer x (y ∷ xs) h = (goes_first-NoDearer x y h.0, All-NoDearer x xs h.1)

sorted-WorthlessFirst : (xs : List DployInstance) → IsSorted goes_first xs → WorthlessFirst xs
sorted-WorthlessFirst [] h = tt
sorted-WorthlessFirst (x ∷ xs) h = (All-NoDearer x xs h.0, sorted-WorthlessFirst xs h.1)

-- The victims are the unclaimed members, each as often, Failed ones first and Available ones last,
-- and of those alike in this the ones created last first.
pub sort_purge_victims-WorthlessFirst :
    (unclaimed : List DployInstance)
    → WorthlessFirst (sort_purge_victims unclaimed)
      × ((p : DployInstance → Bool) → count p (sort_purge_victims unclaimed) ≡ count p unclaimed)
unfolding sort_purge_victims
sort_purge_victims-WorthlessFirst unclaimed = (
  sorted-WorthlessFirst _ (sort_by-IsSorted goes_first goes_first-IsOrder unclaimed),
  λ p. count-sort_by goes_first p unclaimed,
)
