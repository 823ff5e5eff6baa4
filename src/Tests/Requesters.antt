-- ===== src/Tests/Requesters.antt =====
-- The theorems on the API's use of Kubernetes at a concrete requester and claim.
use dploy.Prelude.{◌≡◌, refl, inr, true, false, none, some, [], ◌∷◌, arith, select}
use dploy.Prelude.Int.{pos, ◌<ℤ◌, ◌+ℤ◌, ◌*ℤ◌, wrap64}
use dploy.Prelude.Text.{Text, codes, text_eq}
use dploy.V1alpha1.Claim.{ClaimPhase, DployInstanceClaim}
use dploy.Effective.{fallbacks}
use dploy.Ttl.{resolve_instance_ttl, max_lifetime, resolve_claim_ttl}
use dploy.Naming
use dploy.Naming.{claim_name}
use dploy.Cluster.{Kube, Call, ok, err, already_exists}
use dploy.KubeClient.{
  ClaimValue, has_text, string_elements, claim_values, first_owner, resolve_owner, identities,
  ensure_claim, extend_claim, wanted_ttl, with_ttl, deadline,
}
use dploy.KubeClient.Reachable.{identities-resolve_owner}
use dploy.KubeClient.Extension.{extend_claim-resolve_claim_ttl}
use dploy.KubeClient.Idempotent.{ensure_claim_being_deleted}
use dploy.Tests.Fixtures.{lab, request, server}

-- A token whose every claim is a list of groups.
abbrev groups : Text → ClaimValue
groups c = ClaimValue.anys (none ∷ some (codes "team-1") ∷ [])

identities-resolve_owner_example :
    has_text (codes "team-1") (identities groups (codes "groups" ∷ []) (codes "alice")) ≡ true
unfolding resolve_owner first_owner claim_values string_elements has_text text_eq
    Naming.sanitize_owner Naming.clean Naming.trim Naming.trim_left Naming.trim_right
    Naming.is_key_char Naming.to_lower Naming.to_dash select
identities-resolve_owner_example =
    identities-resolve_owner groups (codes "groups") (codes "groups" ∷ []) (codes "alice")
      (codes "team-1") refl (inr refl)

-- Bound at second 0 for a day, with a ceiling of a day and three times two hours.
abbrev bound_claim : DployInstanceClaim
bound_claim = record request {
  status = record (request.status) {
    phase = ClaimPhase.bound;
    bound_at = some (pos 0);
    ttl_seconds = pos 86400;
    max_ttl_seconds = pos 108000;
  };
}

abbrev answering : Kube
answering = server bound_claim [] []

abbrev wanted_claim : DployInstanceClaim
wanted_claim = with_ttl (wanted_ttl bound_claim (pos 7200)) bound_claim

extend_claim-resolve_claim_ttl_example :
    (extend_claim answering (codes "ctf") bound_claim (pos 7200) [] ≡ (
      ok (deadline (wanted_ttl bound_claim (pos 7200)) (some (pos 0))),
      Call.patch_claim_spec wanted_claim ∷ [],
    ))
    × (pos 86400 <ℤ wanted_ttl bound_claim (pos 7200))
    × (resolve_claim_ttl wanted_claim lab fallbacks
        ≡ (wanted_ttl bound_claim (pos 7200), pos 108000))
unfolding ◌+ℤ◌ ◌*ℤ◌ wrap64 resolve_instance_ttl max_lifetime
extend_claim-resolve_claim_ttl_example =
    extend_claim-resolve_claim_ttl bound_claim (pos 7200) (omega arith) (omega arith) (omega arith)
      (omega arith) answering (codes "ctf") lab fallbacks (pos 0) bound_claim [] refl refl refl

-- The claim while it is being deleted, on a server that knows its name.
abbrev going : DployInstanceClaim
going = record request { meta = record (request.meta) { deletion_timestamp = some (pos 900) } }

abbrev unwinding : Kube
unwinding = record (server going [] []) { write_claim = λ log c. err already_exists }

ensure_claim_being_deleted_example :
    (ensure_claim unwinding (codes "ctf") (codes "alice") [] lab false []).0 ≡ ok none
ensure_claim_being_deleted_example =
    ensure_claim_being_deleted unwinding (codes "ctf") (codes "alice") [] lab false going (pos 900)
      [] (λ l. refl) refl refl
