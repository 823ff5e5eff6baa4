-- ===== src/ClaimController/Seniority.antt =====
-- Which instance loses a race for a quota or a cap: the oldest keep their places.
use dploy.Prelude.{
  ℕ, ◌<◌, ◌≡◌, ◌≢◌, ◌⊎◌, inl, inr, refl, Option, Bool, true, false, ◌&&◌, none, List, [], ◌∷◌, All,
  arith, select, is_empty, if◌then◌else◌,
}
use dploy.Prelude.Int.{ℤ, pos, leb_ℤ, ◌<ℤ◌}
use dploy.Prelude.Text.{text_lt, text_eq_iff, text_lt_asym, text_lt_steps, text_lt_total}
use dploy.V1alpha1.Common.{Time}
use dploy.V1alpha1.Template.{DployTemplate}
use dploy.V1alpha1.Instance.{DployInstance}
use dploy.V1alpha1.Claim.{DployInstanceClaim}
use dploy.Effective.{Effective}
use dploy.Naming.{sanitize}
use dploy.Ttl.{time_before}
use dploy.Ttl.Before.{
  NotAfter, time_before-NotAfter, time_before_irrefl, time_before_asym, time_before_steps,
  time_before_total,
}
use dploy.Sorting.Ranks.{count, IsOrder, IsSorted, sort_by-IsSorted, Finds, rank_lem}
use dploy.Cluster.{Kube, Call, Log, ok, direct, by_owner}
use dploy.Cluster.Requests.{delete_instance}
use dploy.ClaimController.Quota.{
  owner_limit, older, is_live, live_oldest_first, is_named, beyond_limit, owned_instances,
  evict_if_over_quota,
}

older_asym : (a b : DployInstance) → older a b ≡ true → older b a ≡ false
unfolding older
older_asym a b h = ground (
  arith,
  time_before_asym a.meta.creation_timestamp b.meta.creation_timestamp,
  text_lt_asym a.meta.name b.meta.name,
)

older_steps : (a b c : DployInstance) → older a b ≡ false → older b c ≡ false → older a c ≡ false
unfolding older
older_steps a b c h k = ground (
  arith,
  time_before_steps a.meta.creation_timestamp b.meta.creation_timestamp c.meta.creation_timestamp,
  time_before_steps c.meta.creation_timestamp b.meta.creation_timestamp a.meta.creation_timestamp,
  time_before_steps b.meta.creation_timestamp a.meta.creation_timestamp c.meta.creation_timestamp,
  time_before_steps c.meta.creation_timestamp a.meta.creation_timestamp b.meta.creation_timestamp,
  time_before_steps a.meta.creation_timestamp c.meta.creation_timestamp b.meta.creation_timestamp,
  time_before_steps b.meta.creation_timestamp c.meta.creation_timestamp a.meta.creation_timestamp,
  text_lt_steps a.meta.name b.meta.name c.meta.name,
)

pub older-IsOrder : IsOrder older
older-IsOrder = record { asym = older_asym; steps = older_steps }

-- The first was created before the other, or at the same time with a name that is not behind.
abbrev pub NoYounger : DployInstance → DployInstance → Type 0
NoYounger x y =
    NotAfter x.meta.creation_timestamp y.meta.creation_timestamp
    × ((x.meta.creation_timestamp ≢ y.meta.creation_timestamp)
        ⊎ (text_lt y.meta.name x.meta.name ≡ false))

-- None comes before an older one.
abbrev pub OldestFirst : List DployInstance → Type 0
OldestFirst [] = Unit
OldestFirst (x ∷ xs) = All (NoYounger x) xs × OldestFirst xs

older-cases :
    (x y : DployInstance)
    → older y x ≡ false
    → (time_before y.meta.creation_timestamp x.meta.creation_timestamp ≡ false)
      × ((time_before x.meta.creation_timestamp y.meta.creation_timestamp ≡ true)
          ⊎ (text_lt y.meta.name x.meta.name ≡ false))
unfolding older
older-cases x y h = ground arith

time_before_apart : (s t : Option Time) → time_before s t ≡ true → s ≢ t
time_before_apart s t h e = ground (arith, e, h, time_before_irrefl t)

older-NoYounger : (x y : DployInstance) → older y x ≡ false → NoYounger x y
older-NoYounger x y h =
    let (first, ties) = older-cases x y h in
    (
      time_before-NotAfter x.meta.creation_timestamp y.meta.creation_timestamp first,
      elim ties [
        | inl before ↦
            inl (time_before_apart x.meta.creation_timestamp y.meta.creation_timestamp before)
        | inr named ↦ inr named
      ],
    )

All-NoYounger :
    (x : DployInstance) (xs : List DployInstance)
    → All (λ y. older y x ≡ false) xs
    → All (NoYounger x) xs
All-NoYounger x [] h = tt
All-NoYounger x (y ∷ xs) h = (older-NoYounger x y h.0, All-NoYounger x xs h.1)

sorted-OldestFirst : (xs : List DployInstance) → IsSorted older xs → OldestFirst xs
sorted-OldestFirst [] h = tt
sorted-OldestFirst (x ∷ xs) h = (All-NoYounger x xs h.0, sorted-OldestFirst xs h.1)

pub live_oldest_first-OldestFirst :
    (items : List DployInstance) → OldestFirst (live_oldest_first items)
unfolding live_oldest_first
live_oldest_first-OldestFirst items =
    sorted-OldestFirst _ (sort_by-IsSorted older older-IsOrder (select is_live items))

-- In a listing, an instance of the same name was created at the same time.
abbrev pub SameBirth : DployInstance → DployInstance → Type 0
SameBirth t y = y.meta.name ≡ t.meta.name → y.meta.creation_timestamp ≡ t.meta.creation_timestamp

older_congr :
    (t y b : DployInstance)
    → y.meta.name ≡ t.meta.name
    → y.meta.creation_timestamp ≡ t.meta.creation_timestamp
    → (older b y ≡ older b t) × (older y b ≡ older t b)
unfolding older
older_congr t y b e d = (rw (e, d), rw (e, d))

older_total :
    (t y : DployInstance) → is_named t.meta.name y ≡ false → older t y ≡ false → older y t ≡ true
unfolding older
older_total t y n h = ground (
  arith,
  text_eq_iff y.meta.name t.meta.name,
  text_lt_total y.meta.name t.meta.name,
  time_before_total y.meta.creation_timestamp t.meta.creation_timestamp,
)

older-Finds : (t y : DployInstance) → SameBirth t y → Finds older (is_named t.meta.name) t y
older-Finds t y h = (
  λ named b. let e = (text_eq_iff y.meta.name t.meta.name).0 named in older_congr t y b e (h e),
  older_total t y,
)

live-Finds :
    (t : DployInstance) (items : List DployInstance)
    → All (SameBirth t) items
    → All (Finds older (is_named t.meta.name) t) (select is_live items)
unfolding select
live-Finds t [] h = tt
live-Finds t (y ∷ items) h =
    let rest = live-Finds t items h.1 in
    elim (is_live y)
      as (λ b.
        All (Finds older (is_named t.meta.name) t)
          (if b then y ∷ select is_live items else select is_live items)) [
            | true ↦ (older-Finds t y h.0, rest)
            | false ↦ rest
          ]

count-select :
    (p q : DployInstance → Bool) (items : List DployInstance)
    → count q (select p items) ≡ count (λ y. p y && q y) items
unfolding count select
count-select p q [] = refl
count-select p q (y ∷ items) = ground (arith, count-select p q items)

-- How many live instances of a listing are older than this one.
abbrev pub seniors : DployInstance → List DployInstance → ℕ
seniors t items = count (λ y. is_live y && older y t) items

-- How many live instances of a listing have its name.
abbrev pub namesakes : DployInstance → List DployInstance → ℕ
namesakes t items = count (λ y. is_live y && is_named t.meta.name y) items

-- A live listed instance is beyond the limit exactly when the live instances that are older reach
-- the limit in number, in whatever order they were listed.
beyond_limit_lem :
    (t : DployInstance) (limit : ℤ) (items : List DployInstance)
    → All (SameBirth t) items
    → 0 < namesakes t items
    → beyond_limit t.meta.name limit (live_oldest_first items) ≡ leb_ℤ limit (pos (seniors t items))
unfolding beyond_limit live_oldest_first
beyond_limit_lem t limit items same listed =
    let rank =
      rank_lem older older-IsOrder (is_named t.meta.name) t (select is_live items)
        (live-Finds t items same) (rw (count-select is_live (is_named t.meta.name) items) listed) in
    rw (rank, beyond_limit) (rw (count-select is_live (λ y. older y t) items))

-- The listing of a claim's owner.
abbrev pub owned_listing : DployInstanceClaim → Call
owned_listing claim =
    Call.list_instances direct claim.meta.namespace (by_owner (sanitize claim.spec.owner))

-- Where the owner has a limit and a key, the listing answers and a delete succeeds, settling a quota
-- race deletes the instance exactly when the owner's live instances older than it reach the limit in
-- number; else it writes nothing.
evict_if_over_quota_lem :
    (kube : Kube) (claim : DployInstanceClaim) (tmpl : DployTemplate) (eff : Effective)
    (inst : DployInstance) (items : List DployInstance) (log : Log)
    → pos 0 <ℤ owner_limit tmpl eff
    → is_empty (sanitize claim.spec.owner) ≡ false
    → kube.list_instances log direct claim.meta.namespace (by_owner (sanitize claim.spec.owner))
      ≡ ok items
    → All (SameBirth inst) items
    → 0 < namesakes inst items
    → kube.write (owned_listing claim ∷ log) (Call.delete_instance inst none) ≡ ok tt
    → evict_if_over_quota kube claim tmpl eff inst log ≡ (
        if leb_ℤ (owner_limit tmpl eff) (pos (seniors inst items))
        then (
          ok (true, owner_limit tmpl eff),
          Call.delete_instance inst none ∷ owned_listing claim ∷ log,
        )
        else (ok (false, owner_limit tmpl eff), owned_listing claim ∷ log))
unfolding evict_if_over_quota owned_instances delete_instance
evict_if_over_quota_lem kube claim tmpl eff inst items log h k e same listed d =
    ground (arith, beyond_limit_lem inst (owner_limit tmpl eff) items same listed)
