-- ===== src/Tests/Pools.antt =====
-- The theorems on pools and on Flux's conditions at a concrete template, server and listing.
use dploy.Prelude.{
  ℕ, ◌≡◌, refl, Bool, true, false, ◌&&◌, not, ◌==◌, Option, none, some, [], ◌∷◌, arith,
  if◌then◌else◌, length,
}
use dploy.Prelude.Int.{pos, pos_part, ◌-ℤ◌}
use dploy.Prelude.Text.{codes, text_eq, text_eq_iff}
use dploy.V1alpha1.Common.{Condition, is_false, text}
use dploy.V1alpha1.Template.{PoolSpec, DployTemplate}
use dploy.V1alpha1.Instance.{DployInstance}
use dploy.Cluster.{Kube, Call, Log, Result, ok, err, not_found, conflict, Precondition}
use dploy.Cluster.Requests.{set_controller_reference}
use dploy.Cluster.Traces.{count_calls}
use dploy.Sorting.Ranks.{count}
use dploy.TemplateController.{
  Tally, is_pool_active, fill, shrink, desired_warm, as_read, create_pool_instance, top_up,
  sort_purge_victims,
}
use dploy.TemplateController.Fill.{Filled, room, fill-Filled}
use dploy.TemplateController.Settled.{shrink-fill}
use dploy.TemplateController.Purged.{Store, PurgedTo}
use dploy.TemplateController.Victims.{shrink-PurgedTo}
use dploy.TemplateController.Order.{WorthlessFirst, sort_purge_victims-WorthlessFirst}
use dploy.Tests.Fixtures.{lab, request, warm, two_warm, server}

abbrev small_pool : PoolSpec
small_pool = record { size = pos 2; max_size = pos 5; recycle = none }

abbrev stocked : Kube
stocked = server request [] two_warm

-- One free member is listed, where two are wanted.
abbrev one_listed : Tally
one_listed = record {
  available_ready = 1;
  claimed = 0;
  total = 1;
  unclaimed = warm (codes "lab-a") 10 ∷ [];
}

fill-Filled_example :
    Filled 0
      (if is_pool_active lab && not false then room small_pool 1 1 else 0)
      []
      (fill stocked lab false (pos 60) one_listed [])
fill-Filled_example = fill-Filled stocked lab small_pool false (pos 60) one_listed [] refl

abbrev after_fill : Log
after_fill = (fill stocked lab false (pos 60) one_listed []).1

shrink-fill_example : shrink stocked lab one_listed after_fill ≡ (ok (0, 0), after_fill)
unfolding fill is_pool_active create_pool_instance top_up set_controller_reference
shrink-fill_example =
    shrink-fill stocked lab false (pos 60) one_listed 1 [] after_fill refl (omega arith)

-- The template once its pool is set to a size of one.
abbrev shrunk : DployTemplate
shrunk = record lab {
  spec = record (lab.spec) {
    pool = some (record { size = pos 1; max_size = pos 5; recycle = none });
  };
}

abbrev two_listed : Tally
two_listed = record { available_ready = 2; claimed = 0; total = 2; unclaimed = two_warm }

abbrev is_delete : Call → Bool
is_delete (Call.delete_instance i p) = true
is_delete _ = false

-- Whether nothing has been deleted.
abbrev untouched : Log → Bool
untouched l = count_calls is_delete l == 0

abbrev kept_one : DployInstance
kept_one = warm (codes "lab-b") 20

abbrev version_is : Option ℕ → Bool
version_is none = false
version_is (some n) = n == 0

-- What the precondition asks is true of the one stored instance.
abbrev holds_of : Precondition → Bool
holds_of p = text_eq p.uid (codes "lab-b") && version_is p.resource_version

abbrev answer : Log → Call → Result (Unit {0})
answer l (Call.delete_instance i (some p)) =
    if untouched l then (if holds_of p then ok tt else err conflict) else err not_found
answer l _ = ok tt

-- A server that keeps one instance until it is deleted, and checks preconditions.
abbrev careful : Kube
careful = record stocked {
  get_instance = λ l rd k. if untouched l then ok kept_one else err not_found;
  write = answer;
}

holds_of_lem : (p : Precondition) → holds_of p ≡ true → as_read kept_one ≡ p
holds_of_lem p h = ground (arith, text_eq_iff p.uid (codes "lab-b"))

careful_store : Store careful
careful_store = record {
  stored = λ l k. if untouched l then some kept_one else none;
  reads = λ l k i h. ground arith;
  preconditions = λ l i p h. (kept_one, ground arith, holds_of_lem p (ground arith));
  versions = λ l m k i j h h' e. ground arith;
}

shrink-PurgedTo_example :
    PurgedTo careful careful_store []
      (pos_part (pos (length two_listed.unclaimed) -ℤ desired_warm shrunk))
      0
      0
      (shrink careful shrunk two_listed [])
shrink-PurgedTo_example = shrink-PurgedTo careful careful_store shrunk two_listed []

sort_purge_victims-WorthlessFirst_example :
    WorthlessFirst (sort_purge_victims two_warm)
    × ((p : DployInstance → Bool) → count p (sort_purge_victims two_warm) ≡ count p two_warm)
sort_purge_victims-WorthlessFirst_example = sort_purge_victims-WorthlessFirst two_warm

abbrev broken_release : Condition
broken_release = record {
  kind = codes "Ready";
  status = is_false;
  reason = codes "InstallFailed";
  message = text [];
  last_transition_time = none;
  observed_generation = pos 1;
}

-- A server on which Flux reports that.
abbrev reporting : Kube
reporting = record stocked { find_status_condition = λ cs t. some broken_release }
