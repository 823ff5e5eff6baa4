-- ===== src/ClaimController/Survivors.antt =====
-- What is left of an owner's instances when each has been settled against one listing.
use Prim.Native.Nat.{min}
use dploy.Prelude.{
  ℕ, zero, suc, ◌<◌, ◌≡◌, refl, ap, ◌∙◌, Bool, true, false, not, none, List, [], ◌∷◌, All, arith,
  inl, inr, length, take, length-take, select, is_empty, Bool-cases,
}
use dploy.Prelude.Int.{pos, leb_ℤ}
use dploy.Prelude.Text.{Text, text_eq, text_eq_iff, text_eq_refl}
use dploy.V1alpha1.Template.{DployTemplate}
use dploy.V1alpha1.Instance.{DployInstance}
use dploy.V1alpha1.Claim.{DployInstanceClaim}
use dploy.Effective.{Effective}
use dploy.Naming.{sanitize}
use dploy.Sorting.{insert_by, sort_by, index_of}
use dploy.ClaimController.Seniority.{OldestFirst, live_oldest_first-OldestFirst}
use dploy.Sorting.Ranks.{count, count-sort_by, All-insert_by, All-sort_by, length-sort_by}
use dploy.Cluster.{Kube, Call, Log, ok, err, direct, by_owner}
use dploy.Cluster.Requests.{delete_instance}
use dploy.ClaimController.Quota.{
  owner_limit, older, is_live, live_oldest_first, beyond_limit, owned_instances, evict,
  evict_if_over_quota,
}

abbrev OtherName : DployInstance → DployInstance → Type 0
OtherName x y = text_eq x.meta.name y.meta.name ≡ false

-- No two of the instances have one name.
abbrev pub Distinct : List DployInstance → Type 0
Distinct [] = Unit
Distinct (x ∷ xs) = All (OtherName x) xs × Distinct xs

text_eq_comm : (s t : Text) → text_eq s t ≡ text_eq t s
text_eq_comm s t = ground (arith, text_eq_iff s t, text_eq_iff t s)

Distinct-insert_by :
    (a : DployInstance) (xs : List DployInstance)
    → All (OtherName a) xs
    → Distinct xs
    → Distinct (insert_by older a xs)
unfolding insert_by
Distinct-insert_by a [] h d = (tt, tt)
Distinct-insert_by a (x ∷ xs) h d = elim (Bool-cases (older x a)) [
  | inr before ↦ rw before (h, d)
  | inl after ↦ rw after (
    All-insert_by older (OtherName x) a xs (text_eq_comm x.meta.name a.meta.name ∙ h.0) d.0,
    Distinct-insert_by a xs h.1 d.1,
  )
]

Distinct-sort_by : (xs : List DployInstance) → Distinct xs → Distinct (sort_by older xs)
unfolding sort_by
Distinct-sort_by [] d = tt
Distinct-sort_by (x ∷ xs) d =
    Distinct-insert_by x (sort_by older xs) (All-sort_by older (OtherName x) xs d.0)
      (Distinct-sort_by xs d.1)

All-select_kept :
    (P : DployInstance → Type 0) (p : DployInstance → Bool) (xs : List DployInstance)
    → All P xs
    → All P (select p xs)
unfolding select
All-select_kept P p [] h = tt
All-select_kept P p (x ∷ xs) h = elim (Bool-cases (p x)) [
  | inl e ↦ rw e (h.0, All-select_kept P p xs h.1)
  | inr e ↦ rw e (All-select_kept P p xs h.1)
]

Distinct-select :
    (p : DployInstance → Bool) (xs : List DployInstance) → Distinct xs → Distinct (select p xs)
unfolding select
Distinct-select p [] d = tt
Distinct-select p (x ∷ xs) d = elim (Bool-cases (p x)) [
  | inl e ↦ rw e (All-select_kept (OtherName x) p xs d.0, Distinct-select p xs d.1)
  | inr e ↦ rw e (Distinct-select p xs d.1)
]

-- The head of a list of distinct names has rank 0; behind it every rank is one more.
beyond_limit-head :
    (x : DployInstance) (xs : List DployInstance) (n : ℕ)
    → beyond_limit x.meta.name (pos n) (x ∷ xs) ≡ leb_ℤ (pos n) (pos 0)
unfolding beyond_limit index_of
beyond_limit-head x xs n = ground (arith, text_eq_refl x.meta.name)

beyond_limit-tail :
    (x y : DployInstance) (xs : List DployInstance) (n : ℕ)
    → OtherName x y
    → beyond_limit y.meta.name (pos (suc n)) (x ∷ xs) ≡ beyond_limit y.meta.name (pos n) xs
unfolding beyond_limit index_of
beyond_limit-tail x y xs n h = ground arith

beyond_limit-zero :
    (x y : DployInstance) (xs : List DployInstance)
    → OtherName x y
    → beyond_limit y.meta.name (pos 0) xs ≡ true
    → beyond_limit y.meta.name (pos 0) (x ∷ xs) ≡ true
unfolding beyond_limit index_of
beyond_limit-zero x y xs h b = ground arith

All-always :
    {P : DployInstance → Type 0}
    → ((y : DployInstance) → P y)
    → (xs : List DployInstance) → All P xs
All-always f [] = tt
All-always f (x ∷ xs) = (f x, All-always f xs)

All-both :
    (P Q R : DployInstance → Type 0) (xs : List DployInstance)
    → ((y : DployInstance) → P y → Q y → R y)
    → All P xs
    → All Q xs
    → All R xs
All-both P Q R [] f hp hq = tt
All-both P Q R (x ∷ xs) f hp hq = (f x hp.0 hq.0, All-both P Q R xs f hp.1 hq.1)

All-beyond_zero :
    (xs : List DployInstance)
    → Distinct xs
    → All (λ y. beyond_limit y.meta.name (pos 0) xs ≡ true) xs
All-beyond_zero [] d = tt
All-beyond_zero (x ∷ xs) d = (
  beyond_limit-head x xs 0,
  All-both (OtherName x) (λ y. beyond_limit y.meta.name (pos 0) xs ≡ true)
      (λ y. beyond_limit y.meta.name (pos 0) (x ∷ xs) ≡ true) xs
      (λ y h b. beyond_limit-zero x y xs h b) d.0 (All-beyond_zero xs d.1),
)

select-none :
    (p : DployInstance → Bool) (xs : List DployInstance)
    → All (λ y. p y ≡ false) xs
    → select p xs ≡ []
unfolding select
select-none p [] h = refl
select-none p (x ∷ xs) h = ground (arith, h.0, select-none p xs h.1)

select-congr :
    (p q : DployInstance → Bool) (xs : List DployInstance)
    → All (λ y. p y ≡ q y) xs
    → select p xs ≡ select q xs
unfolding select
select-congr p q [] h = refl
select-congr p q (x ∷ xs) h = ground (arith, h.0, select-congr p q xs h.1)

-- Whether an instance is within the limit of a ranked list.
abbrev within : ℕ → List DployInstance → DployInstance → Bool
within n ranked i = not (beyond_limit i.meta.name (pos n) ranked)

-- Those within the limit are the first so many.
within-take : (xs : List DployInstance) (n : ℕ) → Distinct xs → select (within n xs) xs ≡ take n xs
unfolding select
within-take xs zero d =
    let all = All-beyond_zero xs d in
    select-none (within 0 xs) xs (
      All-both (λ y. beyond_limit y.meta.name (pos 0) xs ≡ true)
        (λ y. beyond_limit y.meta.name (pos 0) xs ≡ true) (λ y. within 0 xs y ≡ false) xs
        (λ y u b. ap not b) all all)
within-take [] (suc n) d = refl
within-take (x ∷ xs) (suc n) d =
    let head : within (suc n) (x ∷ xs) x ≡ true = ground (arith, beyond_limit-head x xs (suc n)) in
    let tail = select-congr (within (suc n) (x ∷ xs)) (within n xs) xs (
      All-both (OtherName x) (OtherName x) (λ y. within (suc n) (x ∷ xs) y ≡ within n xs y) xs
        (λ y h h'. ap not (beyond_limit-tail x y xs n h)) d.0 d.0) in
    rw head (ap (◌∷◌ x) (tail ∙ within-take xs n d.1))

module _ (kube : Kube) (claim : DployInstanceClaim) (tmpl : DployTemplate) (eff : Effective)
    (log : Log) where
  -- Settling against the quota leaves the instance.
  abbrev pub spared : DployInstance → Bool
  spared i = elim (evict_if_over_quota kube claim tmpl eff i log).0 [
    | ok (evicted, limit) ↦ not evicted
    | err e ↦ false
  ]

  -- The owner has a limit and a key, the listing answers, and the server takes every delete.
  pub record Settling (limit : ℕ) (items : List DployInstance) : Type 0 where
    pub limited : owner_limit tmpl eff ≡ pos limit
    pub positive : 0 < limit
    pub keyed : is_empty (sanitize claim.spec.owner) ≡ false
    pub listed :
        kube.list_instances log direct claim.meta.namespace (by_owner (sanitize claim.spec.owner))
        ≡ ok items
    pub deletes : (l : Log) (i : DployInstance) → kube.write l (Call.delete_instance i none) ≡ ok tt

  module _ (limit : ℕ) (items : List DployInstance) (s : Settling limit items) where
    spared_lem : (i : DployInstance) → spared i ≡ within limit (live_oldest_first items) i
    unfolding evict_if_over_quota owned_instances evict delete_instance
    spared_lem i =
        let gone =
          s.deletes
            (Call.list_instances direct claim.meta.namespace (by_owner (sanitize claim.spec.owner))
              ∷ log)
            i in
        elim (Bool-cases (beyond_limit i.meta.name (pos limit) (live_oldest_first items))) [
          | inl beyond ↦ ground (arith, s.limited, s.positive, s.keyed, s.listed, beyond, gone)
          | inr inside ↦ ground (arith, s.limited, s.positive, s.keyed, s.listed, inside)
        ]

    -- Where the names of the listed instances differ and the owner's quota is a positive number: the
    -- live instances, each as often, have an order in which none comes before one that was created
    -- earlier, or at the same time with an earlier name; and settling each of them against the listing
    -- spares exactly the first ones of it, as many as the quota says, or all where they are fewer.
    pub evict_if_over_quota-take :
        Distinct items
        → OldestFirst (live_oldest_first items)
          × ((p : DployInstance → Bool)
              → count p (live_oldest_first items) ≡ count p (select is_live items))
          × (select spared (live_oldest_first items) ≡ take limit (live_oldest_first items))
          × (length (select spared (live_oldest_first items))
              ≡ min limit (length (select is_live items)))
    unfolding live_oldest_first
    evict_if_over_quota-take d =
        let distinct = Distinct-sort_by (select is_live items) (Distinct-select is_live items d) in
        let kept =
          select-congr spared (within limit (live_oldest_first items)) (live_oldest_first items)
            (All-always spared_lem (live_oldest_first items))
          ∙ within-take (live_oldest_first items) limit distinct in
        (
          live_oldest_first-OldestFirst items,
          λ p. count-sort_by older p (select is_live items),
          kept,
          ap length kept
              ∙ length-take limit (live_oldest_first items)
              ∙ ap (min limit) (length-sort_by older (select is_live items)),
        )
