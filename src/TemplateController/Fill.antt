-- ===== src/TemplateController/Fill.antt =====
-- How many instances a fill creates.
use Prim.Native.Nat.{min}
use dploy.Prelude.{
  ℕ, zero, suc, ◌+◌, ◌-◌, ◌≤◌, ◌≡◌, Bool, ◌&&◌, not, some, arith, length, if◌then◌else◌,
}
use dploy.Prelude.Int.{ℤ, pos, pos_part, ltb_ℤ}
use dploy.V1alpha1.Template.{PoolSpec, DployTemplate}
use dploy.Cluster.{Kube, Log, Result, ok, err}
use dploy.Cluster.Requests.{set_controller_reference}
use dploy.Cluster.Traces.{count_calls, is_create}
use dploy.TemplateController.Pool.{is_pool_active, create_pool_instance, top_up, fill, Tally}

-- How many members a pool lacks with so many unclaimed and so many instances in all: up to its size,
-- and up to its cap if it has one.
abbrev pub room : PoolSpec → ℕ → ℕ → ℕ
room p unclaimed total =
    let lack = pos_part p.size - unclaimed in
    if ltb_ℤ (pos 0) p.max_size then min lack (pos_part p.max_size - total) else lack

-- Behind a log, so many creates are sent and counted, or the run fails behind at most so many.
abbrev pub Filled : ℕ → ℕ → Log → Result ℕ × Log → Type 0
Filled created n log r = elim r.0 [
  | ok k ↦ (k ≡ created + n) × (count_calls is_create r.1 ≡ count_calls is_create log + n)
  | err e ↦ count_calls is_create r.1 ≤ count_calls is_create log + n
]

module _ (kube : Kube) where
  top_up-Filled :
      (tmpl : DployTemplate) (p : PoolSpec) (ttl : ℤ) (unclaimed total created fuel : ℕ) (log : Log)
      → pos_part p.size ≤ unclaimed + created + fuel
      → Filled created
          (room p (unclaimed + created) (total + created))
          log
          (top_up kube tmpl p ttl unclaimed total created fuel log)
  unfolding top_up create_pool_instance count_calls set_controller_reference
  top_up-Filled tmpl p ttl unclaimed total created zero log h = ground arith
  top_up-Filled tmpl p ttl unclaimed total created (suc fuel) log h =
      let ih = top_up-Filled tmpl p ttl unclaimed total (suc created) fuel in grind (arith, ih)

  -- The fill of an active pool whose chart is not known to be broken creates exactly as many
  -- instances as the pool lacks up to its size, or up to its cap if that is less, and reports that
  -- number, or it fails behind at most so many; for any other template it creates none.
  pub fill-Filled :
      (tmpl : DployTemplate) (p : PoolSpec) (broken : Bool) (ttl : ℤ) (t : Tally) (log : Log)
      → tmpl.spec.pool ≡ some p
      → Filled 0
          (if is_pool_active tmpl && not broken then room p (length t.unclaimed) t.total else 0)
          log
          (fill kube tmpl broken ttl t log)
  unfolding fill
  fill-Filled tmpl p broken ttl t log e =
      let run =
        top_up-Filled tmpl p ttl (length t.unclaimed) t.total 0 (pos_part p.size) log
          (omega arith) in
      grind (arith, run)
