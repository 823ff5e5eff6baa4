-- ===== src/Tests/Claims.antt =====
-- The theorems on the claim controller at concrete claims and servers.
use Prim.Native.Nat.{min}
use dploy.Prelude.{
  Bool, ◌⊎◌, All, take, length, ◌+◌, ◌≤◌, ◌≡◌, refl, inl, true, none, some, [], ◌∷◌, arith, select,
}
use dploy.Prelude.Int.{pos, wrap64, ◌+ℤ◌, ◌-ℤ◌, ◌*ℤ◌}
use dploy.Prelude.Text.{codes, text_eq, text_lt}
use dploy.V1alpha1.Common.{text}
use dploy.V1alpha1.Template.{DployTemplate}
use dploy.V1alpha1.Instance.{InstancePhase, DployInstance}
use dploy.V1alpha1.Claim.{ClaimPhase, DployInstanceClaim}
use dploy.Effective.{Effective, fallbacks}
use dploy.Naming.{sanitize}
use dploy.Naming
use dploy.Cluster.{Kube, Call, Log, key, cached, by_pooled_template}
use dploy.Cluster.Traces.{count_calls, is_create, is_bind, is_instance_write}
use dploy.ClaimController.{
  reconcile, reconcile_in_flight, reject, owner_limit, acquire_pooled, claim_bind_retries,
}
use dploy.ClaimController.OneInstance.{reconcile-creates_one}
use dploy.ClaimController.Terminal.{reconcile_terminal, reconcile_past_expiry}
use dploy.ClaimController.Release.{EndsRefused, LetsGo, FailsUnwritten, reject_releases}
use dploy.ClaimController.Parked.{Parks, reconcile_bound-Parks}
use dploy.ClaimController.Seniority.{OldestFirst}
use dploy.Sorting.{sort_by, insert_by, index_of}
use dploy.Sorting.Ranks.{count}
use dploy.Ttl.{expiry_from, seconds, time_sub, time_before}
use dploy.ClaimController.Candidates.{Fought, acquire_pooled-Fought}
use dploy.ClaimController.{
  older, beyond_limit, max_template_size, reconcile_bound, is_live, live_oldest_first,
}
use dploy.ClaimController.Survivors.{spared, Settling, evict_if_over_quota-take}
use dploy.Ownership.Written.{IsOwnWrite, reconcile-IsOwnWrite}
use dploy.Tests.Fixtures.{lab, request, request_in, warm, two_warm, server}

-- Alice's claim meets a server with two free members.
abbrev stocked : Kube
stocked = server request [] two_warm

reconcile-creates_one_example :
    count_calls is_create (reconcile stocked (key (codes "ctf") (codes "alice-lab")) []).1
    ≤ count_calls is_create [] + 1
reconcile-creates_one_example =
    reconcile-creates_one stocked (key (codes "ctf") (codes "alice-lab")) []

reconcile-IsOwnWrite_example :
    All (IsOwnWrite (codes "c1")) (reconcile stocked (key (codes "ctf") (codes "alice-lab")) []).1
reconcile-IsOwnWrite_example =
    reconcile-IsOwnWrite stocked (key (codes "ctf") (codes "alice-lab")) request refl

abbrev elder : DployInstance
elder = warm (codes "lab-a") 10

abbrev younger : DployInstance
younger = warm (codes "lab-b") 20

abbrev tombstone : DployInstanceClaim
tombstone = request_in ClaimPhase.expired (some (pos 500))

reconcile_terminal_example :
    count_calls is_instance_write
      (reconcile (server tombstone [] two_warm) (key (codes "ctf") (codes "alice-lab")) []).1
    ≡ count_calls is_instance_write []
reconcile_terminal_example =
    reconcile_terminal (server tombstone [] two_warm) (key (codes "ctf") (codes "alice-lab"))
      tombstone [] refl (inl refl)

-- Bound until time 500, at a server whose clock stands at 1000.
abbrev overdue : DployInstanceClaim
overdue = request_in ClaimPhase.bound (some (pos 500))

reconcile_past_expiry_example :
    count_calls is_bind (reconcile_in_flight stocked overdue []).1 ≡ count_calls is_bind []
reconcile_past_expiry_example =
    reconcile_past_expiry stocked overdue (pos 500) [] refl (λ l. omega arith)

-- The claim holds the elder member.
abbrev holding : Kube
holding = server request (elder ∷ []) two_warm

reject_releases_example :
    ((mid : Log) × LetsGo holding request [] mid
      × EndsRefused mid (reject holding request (codes "TemplateDisabled") (text []) []).1)
    ⊎ FailsUnwritten holding request []
        (reject holding request (codes "TemplateDisabled") (text []) [])
reject_releases_example = reject_releases holding request (codes "TemplateDisabled") (text []) []

-- A template with room for one, and owners without a quota.
abbrev tight : DployTemplate
tight = record lab {
  spec = record (lab.spec) {
    max_instances_per_user = none;
    pool = some (record { size = pos 1; max_size = pos 1; recycle = none });
  };
}

abbrev unlimited : Effective
unlimited = record fallbacks { max_instances_per_user = pos 0 }

-- A claim bound at time 400, to the younger member.
abbrev fresh : DployInstanceClaim
fresh = record request { status = record (request.status) { bound_at = some (pos 400) } }

abbrev lost : DployInstance
lost = record younger { status = record (younger.status) { phase = InstancePhase.claimed } }

lost_beyond : beyond_limit lost.meta.name (pos 1) (live_oldest_first two_warm) ≡ true
unfolding beyond_limit live_oldest_first older time_before text_lt text_eq index_of sort_by
    insert_by select
lost_beyond = refl

fresh_expiry : expiry_from (pos 400) (pos 60) ≡ some (pos 60000000400)
unfolding expiry_from seconds wrap64 ◌+ℤ◌ ◌*ℤ◌
fresh_expiry = refl

reconcile_bound-Parks_example :
    Parks lost (pos 60000000400) (reconcile_bound stocked fresh tight unlimited (pos 60) lost []).1
unfolding time_sub ◌-ℤ◌ owner_limit max_template_size
reconcile_bound-Parks_example =
    reconcile_bound-Parks stocked (pos 1000) (λ l. refl) fresh tight unlimited lost two_warm
      (pos 400) (pos 60000000400) (pos 60) (pos 1) [] refl fresh_expiry (omega arith) refl refl refl
      refl (omega arith) (λ l. refl) lost_beyond (λ l. refl)

acquire_pooled-Fought_example :
    Fought stocked request
      (pos 0)
      (λ i. i.spec.pooled ≡ true)
      claim_bind_retries
      (Call.list_instances cached (codes "ctf") (by_pooled_template (codes "lab")) ∷ [])
      (acquire_pooled stocked request lab (pos 0) [])
acquire_pooled-Fought_example =
    acquire_pooled-Fought stocked request (pos 0) (λ i. i.spec.pooled ≡ true) lab two_warm []
      (refl, (refl, tt)) refl

-- The quota of one environment, at the server with two.
stocked-Settling : Settling stocked request lab fallbacks [] 1 two_warm
unfolding owner_limit Naming.sanitize Naming.clean Naming.trim Naming.trim_left Naming.trim_right
    Naming.is_key_char Naming.to_lower Naming.to_dash select
stocked-Settling = record {
  limited = refl;
  positive = omega arith;
  keyed = refl;
  listed = refl;
  deletes = λ l i. refl;
}

evict_if_over_quota-take_example :
    OldestFirst (live_oldest_first two_warm)
    × ((p : DployInstance → Bool)
        → count p (live_oldest_first two_warm) ≡ count p (select is_live two_warm))
    × (select (spared stocked request lab fallbacks []) (live_oldest_first two_warm)
        ≡ take 1 (live_oldest_first two_warm))
    × (length (select (spared stocked request lab fallbacks []) (live_oldest_first two_warm))
        ≡ min 1 (length (select is_live two_warm)))
unfolding text_eq
evict_if_over_quota-take_example =
    evict_if_over_quota-take stocked request lab fallbacks [] 1 two_warm stocked-Settling
      ((refl, tt), (tt, tt))
