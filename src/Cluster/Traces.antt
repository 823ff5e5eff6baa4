-- ===== src/Cluster/Traces.antt =====
-- Counting the calls of a kind in a log, and the two kinds of results.
use dploy.Prelude.{
  ◌≡◌, refl, ◌⊎◌, inl, inr, ℕ, suc, Bool, true, false, [], ◌∷◌, if◌then◌else◌, arith,
}
use dploy.V1alpha1.Instance.{DployInstance}
use dploy.Cluster.Calls.{Error, Result, ok, err, Call, Log}

unfoldable pub count_calls : (Call → Bool) → Log → ℕ
count_calls p [] = 0
count_calls p (c ∷ log) = let n = count_calls p log in if p c then suc n else n

abbrev pub is_create : Call → Bool
is_create (Call.create_instance i) = true
is_create _ = false

-- How many calls create or update an instance that passes the one test or the other.
unfoldable pub count_writes : (made written : DployInstance → Bool) → Log → ℕ
count_writes made written [] = 0
count_writes made written (Call.create_instance i ∷ log) =
    let n = count_writes made written log in if made i then suc n else n
count_writes made written (Call.update_instance i ∷ log) =
    let n = count_writes made written log in if written i then suc n else n
count_writes made written (_ ∷ log) = count_writes made written log

pub count_writes-create :
    (log : Log) → count_writes (λ i. true) (λ i. false) log ≡ count_calls is_create log
unfolding count_writes count_calls
count_writes-create [] = refl
count_writes-create (c ∷ log) = ground (arith, count_writes-create log)

-- A call that puts an instance into a claim's hands.
abbrev pub is_bind : Call → Bool
is_bind (Call.create_instance i) = true
is_bind (Call.update_instance i) = true
is_bind _ = false

-- A call that changes or removes an instance.
abbrev pub is_instance_write : Call → Bool
is_instance_write (Call.create_instance i) = true
is_instance_write (Call.update_instance i) = true
is_instance_write (Call.delete_instance i p) = true
is_instance_write _ = false

pub Result-cases {ℓ} :
    {A : Type ℓ} (r : Result A) → ((a : A) × (r ≡ ok a)) ⊎ ((e : Error) × (r ≡ err e))
Result-cases (ok a) = inl (a, refl)
Result-cases (err e) = inr (e, refl)
