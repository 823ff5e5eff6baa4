-- ===== src/TemplateController/Purged.antt =====
-- Runs that only destroy what is free, on a server whose deletes keep their preconditions.
use dploy.Prelude.{ℕ, suc, ◌+◌, ◌≤◌, ◌≡◌, true, some, ◌∷◌, arith, subst, sym, Option}
use dploy.V1alpha1.Instance.{DployInstance}
use dploy.Cluster.{Kube, Key, key, direct, Precondition, Call, Log, Result, ok, err, Error}
use dploy.TemplateController.Purge.{is_purgeable, as_read}

-- What the API server keeps, and what its reads and deletes have to do with it: a direct read shows
-- the stored object, a delete with preconditions succeeds only where they hold of it, and a
-- resource version never comes back with another content.
pub record Store (kube : Kube) : Type 0 where
  pub stored : Log → Key → Option DployInstance
  pub reads :
      (l : Log) (k : Key) (i : DployInstance)
      → kube.get_instance l direct k ≡ ok i
      → stored l (key i.meta.namespace i.meta.name) ≡ some i
  pub preconditions :
      (l : Log) (i : DployInstance) (p : Precondition)
      → kube.write l (Call.delete_instance i (some p)) ≡ ok tt
      → (j : DployInstance) × (stored l (key i.meta.namespace i.meta.name) ≡ some j)
        × (as_read j ≡ p)
  pub versions :
      (l m : Log) (k : Key) (i j : DployInstance)
      → stored l k ≡ some i
      → stored m k ≡ some j
      → as_read i ≡ as_read j
      → i ≡ j

module _ (kube : Kube) (store : Store kube) where
  -- What is stored there may be destroyed.
  abbrev pub IsFree : Log → DployInstance → Type 0
  IsFree l i =
      (j : DployInstance) × (store.stored l (key i.meta.namespace i.meta.name) ≡ some j)
      × (is_purgeable j ≡ true)

  -- A delete that the server accepts, of an instance that is free at that moment.
  abbrev pub TakesFree : Log → DployInstance → Precondition → Type 0
  TakesFree l i p = (kube.write l (Call.delete_instance i (some p)) ≡ ok tt) × IsFree l i

  -- From the first log to the second by reads, by deletes that the server refuses, and by so many
  -- that it accepts, of an instance that is free at that moment.
  pub data Purged (log : Log) : Log → ℕ → Type 0 where
    start : Purged log log 0
    read :
        {l : Log} {n : ℕ} (k : Key) → Purged log l n → Purged log (Call.get_instance direct k ∷ l) n
    refused :
        {l : Log} {n : ℕ} (i : DployInstance) (p : Precondition) (e : Error)
        → kube.write l (Call.delete_instance i (some p)) ≡ err e
        → Purged log l n
        → Purged log (Call.delete_instance i (some p) ∷ l) n
    deleted :
        {l : Log} {n : ℕ} (i : DployInstance) (p : Precondition)
        → TakesFree l i p
        → Purged log l n
        → Purged log (Call.delete_instance i (some p) ∷ l) (suc n)

  read_first :
      {log : Log} (k : Key) {l : Log} {n : ℕ}
      → Purged (Call.get_instance direct k ∷ log) l n
      → Purged log l n
  read_first k start = read k start
  read_first k (read k' q) = read k' (read_first k q)
  read_first k (refused i c e h q) = refused i c e h (read_first k q)
  read_first k (deleted i c h q) = deleted i c h (read_first k q)

  refused_first :
      {log : Log} (i : DployInstance) (p : Precondition) (e : Error)
      (h : kube.write log (Call.delete_instance i (some p)) ≡ err e) {l : Log} {n : ℕ}
      → Purged (Call.delete_instance i (some p) ∷ log) l n
      → Purged log l n
  refused_first i p e h start = refused i p e h start
  refused_first i p e h (read k q) = read k (refused_first i p e h q)
  refused_first i p e h (refused j c e' h' q) = refused j c e' h' (refused_first i p e h q)
  refused_first i p e h (deleted j c h' q) = deleted j c h' (refused_first i p e h q)

  deleted_first :
      {log : Log} (i : DployInstance) (p : Precondition) (f : TakesFree log i p) {l : Log} {n : ℕ}
      → Purged (Call.delete_instance i (some p) ∷ log) l n
      → Purged log l (suc n)
  deleted_first i p f start = deleted i p f start
  deleted_first i p f (read k q) = read k (deleted_first i p f q)
  deleted_first i p f (refused j c e h q) = refused j c e h (deleted_first i p f q)
  deleted_first i p f (deleted j c h q) = deleted j c h (deleted_first i p f q)

  -- A read shows an instance that is free; if the server accepts the delete of it as it was read,
  -- it is free still.
  pub as_read-IsFree :
      (l m : Log) (k : Key) (fresh : DployInstance)
      → kube.get_instance l direct k ≡ ok fresh
      → is_purgeable fresh ≡ true
      → kube.write m (Call.delete_instance fresh (some (as_read fresh))) ≡ ok tt
      → IsFree m fresh
  as_read-IsFree l m k fresh r p w =
      let (j, at, same) = store.preconditions m fresh (as_read fresh) w in
      let e =
        store.versions m l (key fresh.meta.namespace fresh.meta.name) j fresh at
          (store.reads l k fresh r) same in
      (j, at, subst (λ i. is_purgeable i ≡ true) (sym e) p)

  -- The end of a run that had deleted so many before, of those so many Available.
  abbrev pub PurgedTo : Log → ℕ → ℕ → ℕ → Result (ℕ × ℕ) × Log → Type 0
  PurgedTo log excess before available r =
      (n : ℕ) × Purged log r.1 n
      × (before + n ≤ excess)
      × elim r.0 [ ok (k, a) ↦ (k ≡ before + n) × (a ≤ available + n) | err e ↦ Unit ]

  pub via_read :
      (k : Key) (log : Log) (excess before available : ℕ) (r : Result (ℕ × ℕ) × Log)
      → PurgedTo (Call.get_instance direct k ∷ log) excess before available r
      → PurgedTo log excess before available r
  via_read k log excess before available r (n, p, le, o) = (n, read_first k p, le, o)

  pub via_refused :
      (i : DployInstance) (c : Precondition) (e : Error) (log : Log) (excess before available : ℕ)
      (r : Result (ℕ × ℕ) × Log)
      → kube.write log (Call.delete_instance i (some c)) ≡ err e
      → PurgedTo (Call.delete_instance i (some c) ∷ log) excess before available r
      → PurgedTo log excess before available r
  via_refused i c e log excess before available r h (n, p, le, o) =
      (n, refused_first i c e h p, le, o)

  pub via_deleted :
      (i : DployInstance) (c : Precondition) (log : Log) (excess before available now : ℕ)
      (r : Result (ℕ × ℕ) × Log)
      → TakesFree log i c
      → now ≤ available + 1
      → PurgedTo (Call.delete_instance i (some c) ∷ log) excess (suc before) now r
      → PurgedTo log excess before available r
  via_deleted i c log excess before available now (ok (k, a), l) f h (n, p, le, o) =
      (suc n, deleted_first i c f p, omega arith, (omega arith, omega arith))
  via_deleted i c log excess before available now (err e, l) f h (n, p, le, o) =
      (suc n, deleted_first i c f p, omega arith, tt)
