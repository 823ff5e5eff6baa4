-- ===== src/Handlers/Run.antt =====
-- The handlers of internal/handlers/run.go.
use dploy.Prelude.{ℕ, Bool, true, false, Option, none, some, List, [], if◌then◌else◌}
use dploy.Prelude.Int.{ℤ, pos, ltb_ℤ}
use dploy.Prelude.Text.{Text, codes, text_eq}
use dploy.V1alpha1.Common.{text, error_text}
use dploy.V1alpha1.Template.{DployTemplate}
use dploy.V1alpha1.Claim.{ClaimPhase, DployInstanceClaim}
use dploy.KubeClient.{
  Refusal, ExtendResult, resolve_owner, get_owner_claim, ensure_claim, extend_claim, delete_claim,
}
use dploy.Configuration.{Config}
use dploy.Cluster.{Kube, not_found, Result, ok, err, key}
use dploy.Cluster.Requests.{get_template}
use dploy.Handlers.Responses.{no_body, problem, environment, extension}
use dploy.Handlers.Context.{
  Request, H, ◌>>=◌, ◌>>◌, pure, GoError, calling, deref, json, send, panics,
}
use dploy.Handlers.Parameters.{claims_map, build_params, built, missing}
use dploy.Handlers.Status.{claim_message, is_blank, claim_response}

abbrev pub not_found_answer : H GoError
not_found_answer = send 404 (problem error_text)

abbrev pub unauthorized : H GoError
unauthorized = send 401 (problem (text (codes "unauthorized: missing user context")))

abbrev pub internal_error : H GoError
internal_error = send 500 (problem error_text)

-- The status of a refusal by the reason of the condition Bound.
unfoldable pub rejected_status : Text → ℕ
rejected_status reason =
    if text_eq reason (codes "QuotaExceeded")
    then 403
    else if text_eq reason (codes "TemplateNotFound")
    then 404
    else if text_eq reason (codes "TemplateDisabled")
    then 404
    else 409

abbrev pub is_rejected_phase : ClaimPhase → Bool
is_rejected_phase ClaimPhase.rejected = true
is_rejected_phase _ = false

-- The lifetime that one extension adds.
unfoldable pub extend_seconds_of : ℤ → Result DployTemplate → ℤ
extend_seconds_of default (err e) = default
extend_seconds_of default (ok tmpl) = elim tmpl.spec.ttl [
  | none ↦ default
  | some ttl ↦ if ltb_ℤ (pos 0) ttl.extend_seconds then ttl.extend_seconds else default
]

module _ (kube : Kube) (config : Config) where
  unfoldable pub respond_rejected : DployInstanceClaim → H GoError
  respond_rejected claim =
      let said = claim_message kube claim in
      let m = if is_blank said then text (codes "the request was rejected") else said in
      elim (kube.find_status_condition claim.status.conditions (codes "Bound")) [
        | none ↦ send 409 (problem m)
        | some c ↦ send (rejected_status c.reason) (problem m)
      ]

  -- The owner key by the template's claim, or by the username where the template cannot be read.
  unfoldable pub resolve_owner_of : Request → Text → H (Text × Bool)
  resolve_owner_of req username = do
    r ← calling (get_template kube (key config.namespace req.env))
    elim r [
      | ok tmpl ↦ pure (resolve_owner (claims_map req) tmpl.spec.owner_claim username)
      | err e ↦ pure (resolve_owner (claims_map req) [] username)
    ]

  -- Go's two results: the claim, and the error that the answer gave.
  unfoldable pub require_claim_of : Request → Text → H (Option DployInstanceClaim × GoError)
  require_claim_of req username = do
    (owner, found) ← resolve_owner_of req username
    let refuse : H GoError → H (Option DployInstanceClaim × GoError) =
        λ answer. do e ← answer; pure (none, e)
    let look : H (Option DployInstanceClaim × GoError) = do
      r ← calling (get_owner_claim kube config.namespace owner req.env)
      elim r [
        | err e ↦ refuse internal_error
        | ok none ↦ refuse not_found_answer
        | ok (some claim) ↦ pure (some claim, none)
      ]
    if found then look else refuse not_found_answer

  unfoldable pub require_claim : Request → H (Option DployInstanceClaim × GoError)
  require_claim req = elim req.username [
    | some username ↦ require_claim_of req username
    | none ↦ do e ← unauthorized; pure (none, e)
  ]

  unfoldable pub get_status : Request → H GoError
  get_status req = do
    (claim, e) ← require_claim req
    let answer : H GoError = do c ← deref claim; json (environment (claim_response kube req c))
    elim e [ some failed ↦ pure (some failed) | none ↦ answer ]

  -- The answer to what ExtendClaim returned.
  unfoldable pub respond_extended : Result ExtendResult → H GoError
  respond_extended (err e) = internal_error
  respond_extended (ok (ExtendResult.refused Refusal.unlimited_ttl)) = send 400 (problem error_text)
  respond_extended (ok (ExtendResult.refused Refusal.not_bound)) = send 400 (problem error_text)
  respond_extended (ok (ExtendResult.refused Refusal.max_extends)) = send 409 (problem error_text)
  respond_extended (ok (ExtendResult.extended t)) = json (extension t)
  respond_extended (ok ExtendResult.nil_bound_at) = λ x. (panics, x)

  unfoldable pub extend_ttl : Request → H GoError
  extend_ttl req = do
    (claim, e) ← require_claim req
    let answer : H GoError = do
      t ← calling (get_template kube (key config.namespace req.env))
      c ← deref claim
      r ← calling (extend_claim kube config.namespace c (extend_seconds_of config.extend_ttl t))
      respond_extended r
    elim e [ some failed ↦ pure (some failed) | none ↦ answer ]

  -- The client's Delete of a nil object is the client library's.
  unfoldable pub delete_environment : H (Result (Unit {0})) → Request → H GoError
  delete_environment delete_nil req = do
    (claim, e) ← require_claim req
    let delete : H (Result (Unit {0})) = elim claim [
      | none ↦ delete_nil
      | some c ↦ calling (delete_claim kube config.namespace c)
    ]
    let log_and_answer : H GoError = do deref claim; send 204 no_body
    let answer : H GoError = do
      r ← delete
      elim r [ err d ↦ internal_error | ok u ↦ log_and_answer ]
    elim e [ some failed ↦ pure (some failed) | none ↦ answer ]

  -- From EnsureClaim on; its claim is nil where the old one is being deleted.
  unfoldable pub submit : Request → Text → List (Text × Text) → DployTemplate → H GoError
  submit req owner params tmpl = do
    r ←
        calling (
          ensure_claim kube config.namespace owner params tmpl (req.query_bool (codes "wait") true))
    let respond : Option DployInstanceClaim → H GoError = λ claim. do
      c ← deref claim
      if is_rejected_phase c.status.phase
          then respond_rejected c
          else json (environment (claim_response kube req c))
    elim r [ err e ↦ internal_error | ok claim ↦ respond claim ]

  -- The owner and the parameters of a request for an enabled template.
  unfoldable pub create_enabled : Request → Text → DployTemplate → H GoError
  create_enabled req username tmpl =
      let (owner, found) = resolve_owner (claims_map req) tmpl.spec.owner_claim username in
      let made : H GoError = elim (build_params config.forwarded_claims req tmpl) [
        | missing name ↦ send 400 (problem error_text)
        | built params ↦ submit req owner params tmpl
      ] in
      if found then made else send 403 (problem error_text)

  unfoldable pub create_environment_for : Request → Text → H GoError
  create_environment_for req username = do
    r ← calling (get_template kube (key config.namespace req.env))
    elim r [
      | err not_found ↦ not_found_answer
      | err e ↦ internal_error
      | ok tmpl ↦ if tmpl.spec.enabled then create_enabled req username tmpl else not_found_answer
    ]

  unfoldable pub create_environment : Request → H GoError
  create_environment req = elim req.username [
    | none ↦ unauthorized
    | some username ↦ create_environment_for req username
  ]
