-- ===== src/KubeClient/Idempotent.antt =====
-- Asking twice for an environment gives the same claim.
use dploy.Prelude.{◌+◌, ◌≤◌, ◌≡◌, Bool, true, false, none, some, List, ◌∷◌, arith}
use dploy.Prelude.Text.{Text}
use dploy.V1alpha1.Common.{Time}
use dploy.V1alpha1.Template.{DployTemplate}
use dploy.V1alpha1.Claim.{DployInstanceClaim}
use dploy.Naming.{claim_name}
use dploy.Cluster.{Kube, key, Call, Log, ok, err, already_exists}
use dploy.Cluster.Traces.{count_calls}
use dploy.KubeClient.Claims.{
  is_expired_phase, new_claim, get_owner_claim, create_claim, replace_expired, ensure_claim,
}

abbrev pub is_claim_create : Call → Bool
is_claim_create (Call.create_claim c) = true
is_claim_create _ = false

module _ (kube : Kube) (namespace : Text) where
  -- Where the owner has a claim for the template that is neither expired nor being deleted, asking
  -- for one returns that claim and writes nothing, a rejected one included.
  ensure_claim_live :
      (owner : Text) (params : List (Text × Text)) (tmpl : DployTemplate) (wait_for_pool : Bool)
      (claim : DployInstanceClaim) (log : Log)
      → kube.get_claim log (key namespace (claim_name owner tmpl.meta.name)) ≡ ok claim
      → claim.meta.deletion_timestamp ≡ none
      → is_expired_phase claim.status.phase ≡ false
      → ensure_claim kube namespace owner params tmpl wait_for_pool log
        ≡ (ok (some claim), Call.get_claim (key namespace (claim_name owner tmpl.meta.name)) ∷ log)
  unfolding ensure_claim get_owner_claim
  ensure_claim_live owner params tmpl wait_for_pool claim log g d p = ground arith

  -- Whatever the API server answers, asking for a claim sends at most one create.
  ensure_claim-creates_one :
      (owner : Text) (params : List (Text × Text)) (tmpl : DployTemplate) (wait_for_pool : Bool)
      (log : Log)
      → count_calls is_claim_create
          (ensure_claim kube namespace owner params tmpl wait_for_pool log).1
        ≤ count_calls is_claim_create log + 1
  unfolding ensure_claim get_owner_claim create_claim replace_expired count_calls
  ensure_claim-creates_one owner params tmpl wait_for_pool log = ground arith

  -- Where the owner's claim for the template is being deleted, so that a create finds the name
  -- taken, asking for a claim returns neither a claim nor an error.
  pub ensure_claim_being_deleted :
      (owner : Text) (params : List (Text × Text)) (tmpl : DployTemplate) (wait_for_pool : Bool)
      (claim : DployInstanceClaim) (t : Time) (log : Log)
      → ((l : Log) → kube.get_claim l (key namespace (claim_name owner tmpl.meta.name)) ≡ ok claim)
      → claim.meta.deletion_timestamp ≡ some t
      → kube.write_claim
          (Call.get_claim (key namespace (claim_name owner tmpl.meta.name)) ∷ log)
          (Call.create_claim (new_claim namespace owner params tmpl wait_for_pool))
        ≡ err already_exists
      → (ensure_claim kube namespace owner params tmpl wait_for_pool log).0 ≡ ok none
  unfolding ensure_claim get_owner_claim create_claim
  ensure_claim_being_deleted owner params tmpl wait_for_pool claim t log g d w =
      let log' : Log =
        Call.create_claim (new_claim namespace owner params tmpl wait_for_pool)
        ∷ Call.get_claim (key namespace (claim_name owner tmpl.meta.name))
        ∷ log in
      ground (arith, g log, g log')
