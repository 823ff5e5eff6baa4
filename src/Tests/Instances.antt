-- ===== src/Tests/Instances.antt =====
-- The theorems on instances at a concrete instance, template and server.
use dploy.Prelude.{◌≡◌, refl, true, Option, none, some, List, [], ◌∷◌, arith, ltb, if◌then◌else◌}
use dploy.Prelude.Int.{pos}
use dploy.Prelude.Text.{Text, codes, text_eq, text_eq_refl}
use dploy.V1alpha1.Common.{Condition, error_text}
use dploy.V1alpha1.Template.{DployTemplate}
use dploy.V1alpha1.Instance.{InstancePhase, DployInstance}
use dploy.V1alpha1.Claim.{ClaimPhase, DployInstanceClaim}
use dploy.Effective.{fallbacks}
use dploy.Ttl.{is_expired}
use dploy.Cluster.{Kube, Key, key, Error, other, ok, err, not_found, git_repository_kind}
use dploy.Cluster.Traces.{count_calls}
use dploy.Flux.{engine_resource_name, SourceVerdict, unknown_source}
use dploy.TemplateController.{Tally, with_pool_status}
use dploy.ClaimController.{no_requeue, desired_instance}
use dploy.InstanceController.{
  contains_finalizer, present, project_release, reconcile, instance_finalizer,
}
use dploy.InstanceController.Anonymous.{SameWorkload, present-desired_instance}
use dploy.InstanceController.Pinned.{moved, reconcile_pins}
use dploy.InstanceController.Proven.{KeepsConditions, releases, reconcile_unproven}
use dploy.InstanceController.Due.{DeletesWhen, project_release-desired_instance}
use dploy.InstanceController.Ends.{is_release_read, updates}
use dploy.InstanceController.Rounds.{Frees, TearsDown, rounds, reconcile-Frees}
use dploy.Tests.Fixtures.{lab, request, request_in, warm, server}

-- A pool member that has its identifier and its namespace.
abbrev running : DployInstance
running = record (warm (codes "lab-a") 10) {
  status = record (warm (codes "lab-a") 10).status {
    phase = InstancePhase.available;
    uuid = codes "0a1b2c3d";
    namespace = codes "pool-lab-0a1b2c3d";
  };
}

abbrev held : Kube
held = record (server request [] []) { get_instance = λ log rd k. ok running }

present-desired_instance_example :
    SameWorkload lab fallbacks git_repository_kind
      (codes "src")
      (present held running lab fallbacks)
      (present held (desired_instance request (pos 60) (some (pos 5)) [] running) lab fallbacks)
present-desired_instance_example =
    present-desired_instance held running request (pos 60) (some (pos 5)) [] lab fallbacks
      git_repository_kind (codes "src") refl refl

reconcile_pins_example :
    moved held
      (codes "0a1b2c3d")
      (codes "pool-lab-0a1b2c3d")
      none
      (reconcile held (key (codes "ctf") (codes "lab-a")) []).1
    ≡ moved held (codes "0a1b2c3d") (codes "pool-lab-0a1b2c3d") none []
reconcile_pins_example =
    reconcile_pins held (codes "0a1b2c3d") (codes "pool-lab-0a1b2c3d") none refl refl
      (key (codes "ctf") (codes "lab-a")) running [] refl (refl, refl, refl)

abbrev find_condition : List Condition → Text → Option Condition
find_condition [] t = none
find_condition (c ∷ cs) t = if text_eq c.kind t then some c else find_condition cs t

abbrev keeping : Kube
keeping = record held { find_status_condition = find_condition }

abbrev no_members : Tally
no_members = record { available_ready = 0; claimed = 0; total = 0; unclaimed = [] }

abbrev unknown : SourceVerdict
unknown = unknown_source (codes "SourcePending") error_text

-- The template as its controller wrote it while the source was not yet known.
abbrev unready : DployTemplate
unready = with_pool_status keeping [] lab unknown no_members 0 0 0

abbrev guarded : Kube
guarded = record keeping { get_template = λ log k. ok unready }

guarded-KeepsConditions : KeepsConditions guarded
guarded-KeepsConditions = record {
  finds = λ l cs c. (c, ground (arith, text_eq_refl c.kind), refl);
}

reconcile_unproven_example :
    releases (reconcile guarded (key (codes "ctf") (codes "lab-a")) []).1 ≡ releases []
unfolding with_pool_status unknown_source
reconcile_unproven_example =
    reconcile_unproven guarded guarded-KeepsConditions (key (codes "ctf") (codes "lab-a")) running
      lab unknown no_members 0 0 0 [] [] refl (λ m. refl) refl

-- A claim that was over at second 600, at second 1000.
abbrev overdue : DployInstanceClaim
overdue = request_in ClaimPhase.bound (some (pos 600))

project_release-desired_instance_example :
    DeletesWhen held
      (pos 1000)
      (λ l. refl)
      (λ l c. (warm (codes "lab-a") 10, refl))
      (λ l i. refl)
      (is_expired overdue (pos 1000))
      []
      (project_release held (desired_instance overdue (pos 60) (some (pos 600)) [] running) [] [])
project_release-desired_instance_example =
    project_release-desired_instance held (pos 1000) (λ l. refl)
      (λ l c. (warm (codes "lab-a") 10, refl)) (λ l i. refl) running overdue (pos 60) (pos 600) []
      [] [] refl refl

-- The instance once it is being deleted, with its finalizer.
abbrev dying : DployInstance
dying = record running {
  meta = record (running.meta) {
    deletion_timestamp = some (pos 900);
    finalizers = instance_finalizer ∷ [];
  };
}

dying_guarded : contains_finalizer instance_finalizer dying.meta.finalizers ≡ true
unfolding contains_finalizer
dying_guarded = ground (arith, text_eq_refl instance_finalizer)

abbrev refused : Error
refused = other (codes "forbidden")

-- A server that refuses every write but those of objects of the program.
abbrev refusing : Kube
refusing = record held { get_instance = λ log rd k. ok dying; write = λ log c. err refused }

abbrev lab_key : Key
lab_key = key (codes "ctf") (codes "lab-a")

-- A server that keeps the release for two reads of it.
abbrev slow : Kube
slow = record held {
  get_instance = λ log rd k. ok dying;
  get_helm_release =
      λ log k. if ltb (count_calls is_release_read log) 2 then ok (true, []) else err not_found;
}

slow-TearsDown : TearsDown slow lab_key lab_key 2 []
unfolding count_calls engine_resource_name
slow-TearsDown = (
  λ l. (dying, refl, ((pos 900, refl), dying_guarded, refl)),
  λ l early. ((true, []), ground (arith, early)),
  λ l late. ground (arith, late),
)

reconcile-Frees_example :
    (updates slow (rounds slow lab_key 2 []) ≡ updates slow [])
    × ((reconcile slow lab_key (rounds slow lab_key 2 [])).0 ≡ ok no_requeue)
    × Frees slow (rounds slow lab_key 3 [])
reconcile-Frees_example =
    reconcile-Frees slow (λ l n. refl) (λ l i. (warm (codes "lab-a") 10, refl)) lab_key lab_key 2 []
      slow-TearsDown
