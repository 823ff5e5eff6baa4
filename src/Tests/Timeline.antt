-- ===== src/Tests/Timeline.antt =====
-- A concrete history: a pool member is bound to one claim, synchronised, deleted, created anew under
-- its name and bound to another claim; and the workers that see it.
use mathlib.Core.Path.{ap₂}
use mathlib.Core.Option.{some-injective}
use dploy.Prelude.{
  ℕ, suc, zero, ◌≡◌, inl, inr, refl, sym, ◌∙◌, ap, subst, Bool, true, ◌&&◌, ◌==◌, Option, none,
  some, List, All, [], ◌∷◌, arith, if◌then◌else◌, Bool-cases,
}
use dploy.Prelude.Text.{Text, codes, text_eq, text_eq_iff}
use dploy.V1alpha1.Common.{value}
use dploy.V1alpha1.Instance.{DployInstance}
use dploy.Cluster.{
  Log, Kube, Key, key, Result, ok, err, not_found, conflict, Selector, by_claim_uid, Call,
}
use dploy.Ownership.History.{key_of, claim_uid_of, History, IsShown, Accepted, Server}
use dploy.Tests.Fixtures.{request, warm, server}

abbrev pub is_member : Key → Bool
is_member k = text_eq k.namespace (codes "ctf") && text_eq k.name (codes "lab-a")

-- Who holds the member in each of its versions.
abbrev holder_at : ℕ → Option Text
holder_at (suc (suc zero)) = some (codes "c1")
holder_at (suc (suc (suc zero))) = some (codes "c1")
holder_at (suc (suc (suc (suc (suc zero))))) = some (codes "c2")
holder_at _ = none

abbrev pub member : ℕ → DployInstance
member v =
    let free = warm (codes "lab-a") 10 in
    record free {
      meta = record (free.meta) {
        resource_version = v;
        labels = record (free.meta.labels) { claim_uid = holder_at v };
      };
    }

abbrev pub timeline : ℕ → Option DployInstance
timeline zero = some (member 1)
timeline (suc zero) = some (member 2)
timeline (suc (suc zero)) = some (member 3)
timeline (suc (suc (suc zero))) = none
timeline (suc (suc (suc (suc zero)))) = some (member 4)
timeline _ = some (member 5)

abbrev pub stored : History
stored t k = if is_member k then timeline t else none

-- A worker whose calls all happen at one moment, when the member has that version.
abbrev accepts : ℕ → DployInstance → Bool
accepts v i =
    is_member (key_of i)
    && ((i.meta.resource_version == v) && text_eq (claim_uid_of i) (value (holder_at (suc v))))

abbrev listed : ℕ → Selector → List DployInstance
listed v (by_claim_uid u) = if text_eq (value (holder_at v)) u then member v ∷ [] else []
listed v _ = member v ∷ []

abbrev answer : ℕ → Call → Result DployInstance
answer v (Call.update_instance i) = if accepts v i then ok (member (suc v)) else err conflict
answer v _ = err not_found

abbrev pub worker : ℕ → Kube
worker v = record (server request [] []) {
  get_instance = λ log rd k. if is_member k then ok (member v) else err not_found;
  list_instances = λ log rd ns s. ok (listed v s);
  write_instance = λ log c. answer v c;
}

by_version :
    (v : ℕ) (i : DployInstance)
    → ◌≡◌ {A = Option DployInstance} (some (member v)) (some i)
    → i ≡ member i.meta.resource_version
by_version v i e =
    subst (λ j. j ≡ member j.meta.resource_version) (some-injective (member v) i e) refl

timeline-member :
    (t : ℕ) (i : DployInstance) → timeline t ≡ some i → i ≡ member i.meta.resource_version
timeline-member zero i e = by_version 1 i e
timeline-member (suc zero) i e = by_version 2 i e
timeline-member (suc (suc zero)) i e = by_version 3 i e
timeline-member (suc (suc (suc zero))) i e = ground arith
timeline-member (suc (suc (suc (suc zero)))) i e = by_version 4 i e
timeline-member (suc (suc (suc (suc (suc t))))) i e = by_version 5 i e

stored-member :
    (t : ℕ) (k : Key) (i : DployInstance) → stored t k ≡ some i → i ≡ member i.meta.resource_version
stored-member t k i e = elim (Bool-cases (is_member k)) [
  | inl here ↦ timeline-member t i (ground arith)
  | inr elsewhere ↦ ground arith
]

abbrev pub member_key : Key
member_key = key (codes "ctf") (codes "lab-a")

is_member-eq : (k : Key) → is_member k ≡ true → k ≡ member_key
is_member-eq k h =
    ap₂ key ((text_eq_iff k.namespace (codes "ctf")).0 (ground arith))
      ((text_eq_iff k.name (codes "lab-a")).0 (ground arith))

module _ (t v : ℕ) (now : timeline t ≡ some (member v))
    (next : timeline (suc t) ≡ some (member (suc v))) where
  at_member : (m : ℕ) (k : Key) → is_member k ≡ true → stored m k ≡ timeline m
  at_member m k h = rw h refl

  member-IsShown : IsShown stored t (member v)
  unfolding text_eq
  member-IsShown = (t, omega arith, now)

  worker-updates :
      (i j : DployInstance) → answer v (Call.update_instance i) ≡ ok j → Accepted stored t i j
  worker-updates i j e = elim (Bool-cases (accepts v i)) [
    | inr refused ↦ ground arith
    | inl accepted ↦
        let here : is_member (key_of i) ≡ true = ground arith in
        let uid = (text_eq_iff (claim_uid_of i) (value (holder_at (suc v)))).0 (ground arith) in
        let e' : member (suc v) ≡ j = ground arith in
        (
          member v,
          at_member t (key_of i) here ∙ now,
          ground arith,
          at_member (suc t) (key_of i) here ∙ next ∙ ap some e',
          sym (ap key_of e') ∙ sym (is_member-eq (key_of i) here),
          sym (ap claim_uid_of e') ∙ sym uid,
        )
  ]

  worker-lists : (s : Selector) → All (IsShown stored t) (listed v s)
  worker-lists (by_claim_uid u) = elim (Bool-cases (text_eq (value (holder_at v)) u)) [
    | inl same ↦ rw same (member-IsShown, tt)
    | inr other ↦ rw other tt
  ]
  worker-lists _ = (member-IsShown, tt)

  worker-selects : (u : Text) → All (λ i. claim_uid_of i ≡ u) (listed v (by_claim_uid u))
  worker-selects u = elim (Bool-cases (text_eq (value (holder_at v)) u)) [
    | inl same ↦ rw same ((text_eq_iff (value (holder_at v)) u).0 same, tt)
    | inr other ↦ rw other tt
  ]

  worker-reads :
      (k : Key) (i : DployInstance)
      → (if is_member k then ok (member v) else err not_found) ≡ ok i
      → (key_of i ≡ k) × IsShown stored t i
  worker-reads k i e = elim (Bool-cases (is_member k)) [
    | inr elsewhere ↦ ground arith
    | inl here ↦
        let e' : member v ≡ i = ground arith in
        subst (λ j. (key_of j ≡ k) × IsShown stored t j) e'
          (sym (is_member-eq k here), member-IsShown)
  ]

  listed-IsShown :
      (s : Selector) (is : List DployInstance)
      → ◌≡◌ {A = Result (List DployInstance)} (ok (listed v s)) (ok is)
      → All (IsShown stored t) is
  listed-IsShown s is e = subst (All (IsShown stored t)) (ground arith) (worker-lists s)

  listed-has_uid :
      (u : Text) (is : List DployInstance)
      → ◌≡◌ {A = Result (List DployInstance)} (ok (listed v (by_claim_uid u))) (ok is)
      → All (λ i. claim_uid_of i ≡ u) is
  listed-has_uid u is e = subst (All (λ i. claim_uid_of i ≡ u)) (ground arith) (worker-selects u)

  pub worker_server : Server stored (worker v)
  worker_server = record {
    moment = λ l. t;
    onward = λ l c. omega arith;
    lists = λ l rd ns s is e. listed-IsShown s is e;
    selects =
        λ l rd ns u is e. subst (All (λ i. claim_uid_of i ≡ u)) (ground arith) (worker-selects u);
    reads = λ l rd k i e. worker-reads k i e;
    updates = λ l i j e. worker-updates i j e;
    versions = λ m n k i j ei ej same.
        stored-member m k i ei ∙ ap member same ∙ sym (stored-member n k j ej);
  }

  pub worker_server-moment : (l : Log) → worker_server.moment l ≡ t
  unfolding worker_server
  worker_server-moment l = refl
