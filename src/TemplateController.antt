-- ===== src/TemplateController.antt =====
-- internal/controller/dploytemplate_controller.go: the warm pool of a template, topped up and shrunk,
-- and the verdict on its chart.
mod Pool
mod Purge
mod Reconcile
pub mod Fill
pub mod Purged
pub mod Settled
pub mod Victims
pub mod Order
pub use Pool.{Tally}
unfoldable pub use Pool.{
  is_pool_active, desired_warm, tally_one, tally, pool_instance, create_pool_instance, top_up, fill,
}
pub use Purge.{as_read}
unfoldable pub use Purge.{
  purge_rank, is_purgeable, goes_first, sort_purge_victims, purge, purge_surplus,
}
unfoldable pub use Reconcile.{
  sync_source, source_condition, with_pool_status, shrink, reconcile_template,
  template_for_instance,
}
