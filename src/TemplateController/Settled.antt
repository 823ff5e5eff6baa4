-- ===== src/TemplateController/Settled.antt =====
-- A reconcile of a template fills its pool or shrinks it, never both.
use dploy.Prelude.{ℕ, Bool, Option-cases, inl, inr, ◌<◌, ◌≡◌, arith}
use dploy.Prelude.Int.{ℤ}
use dploy.V1alpha1.Template.{DployTemplate}
use dploy.Cluster.{Kube, Log, ok}
use dploy.TemplateController.Pool.{is_pool_active, desired_warm, fill, Tally}
use dploy.TemplateController.Reconcile.{shrink}
use dploy.TemplateController.Fill.{fill-Filled}

module _ (kube : Kube) where
  -- Where a fill has created an instance, the same reconcile deletes none and makes no call to.
  pub shrink-fill :
      (tmpl : DployTemplate) (broken : Bool) (ttl : ℤ) (t : Tally) (created : ℕ) (log after : Log)
      → fill kube tmpl broken ttl t log ≡ (ok created, after)
      → 0 < created
      → shrink kube tmpl t after ≡ (ok (0, 0), after)
  unfolding shrink desired_warm is_pool_active fill
  shrink-fill tmpl broken ttl t created log after ran some_made =
      elim (Option-cases tmpl.spec.pool) [
        | inl unset ↦ ground arith
        | inr (p, set) ↦
            let made = fill-Filled kube tmpl p broken ttl t log set in ground (arith, made)
      ]
