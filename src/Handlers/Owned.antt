-- ===== src/Handlers/Owned.antt =====
-- Which claims a request for an environment creates.
use dploy.Prelude.{◌≡◌, refl, Bool, true, false, ◌&&◌, not, some, List, ◌∷◌, arith}
use dploy.Prelude.Text.{Text, codes, text_eq, text_eq_refl}
use dploy.V1alpha1.Template.{DployTemplate}
use dploy.KubeClient.{
  resolve_owner, get_owner_claim, new_claim, create_claim, replace_expired, ensure_claim,
}
use dploy.Configuration.{Config}
use dploy.Cluster.{Kube, ok, key, Call, Log}
use dploy.Cluster.Traces.{count_calls}
use dploy.Handlers.Context.{Request, Exchange, H, GoError, new_response, serve}
use dploy.Handlers.Parameters.{claims_map, Built, built, missing, build_params}
use dploy.Handlers.Run.{
  respond_rejected, submit, create_enabled, create_environment_for, create_environment,
}

-- A claim is created that is not this owner's, or of another template.
abbrev pub creates_for_another : Text → Text → Call → Bool
creates_for_another owner template (Call.create_claim c) =
    not (text_eq c.spec.owner owner && text_eq c.spec.template_ref template)
creates_for_another owner template _ = false

module _ (kube : Kube) (ns : Text) where
  ensure_claim_owned :
      (owner : Text) (params : List (Text × Text)) (tmpl : DployTemplate) (wait : Bool) (log : Log)
      → count_calls
          (creates_for_another owner tmpl.meta.name)
          (ensure_claim kube ns owner params tmpl wait log).1
        ≡ count_calls (creates_for_another owner tmpl.meta.name) log
  unfolding ensure_claim get_owner_claim create_claim replace_expired new_claim count_calls
  ensure_claim_owned owner params tmpl wait log =
      grind (arith, text_eq_refl owner, text_eq_refl tmpl.meta.name)

module _ (kube : Kube) (config : Config) where
  submit_owned :
      (req : Request) (owner : Text) (params : List (Text × Text)) (tmpl : DployTemplate)
      (x : Exchange)
      → count_calls
          (creates_for_another owner tmpl.meta.name)
          (submit kube config req owner params tmpl x).1.log
        ≡ count_calls (creates_for_another owner tmpl.meta.name) x.log
  unfolding submit respond_rejected
  submit_owned req owner params tmpl x = ground (
    arith,
    ensure_claim_owned kube config.namespace owner params tmpl (req.query_bool (codes "wait") true)
        x.log,
  )

  create_enabled_owned :
      (req : Request) (username : Text) (tmpl : DployTemplate) (x : Exchange) (r : Built)
      → build_params config.forwarded_claims req tmpl ≡ r
      → let owner = (resolve_owner (claims_map req) tmpl.spec.owner_claim username).0 in
        count_calls
          (creates_for_another owner tmpl.meta.name)
          (create_enabled kube config req username tmpl x).1.log
        ≡ count_calls (creates_for_another owner tmpl.meta.name) x.log
  unfolding create_enabled
  create_enabled_owned req username tmpl x (built params) h =
      let owner = (resolve_owner (claims_map req) tmpl.spec.owner_claim username).0 in
      ground (arith, h, submit_owned req owner params tmpl x)
  create_enabled_owned req username tmpl x (missing name) h = ground (arith, h)

  serve-log :
      (h : H GoError) (log : Log)
      → (serve h log).1 ≡ (h (record { response = new_response; log = log })).1.log
  unfolding serve
  serve-log h log = ground arith

  create_owned :
      (req : Request) (username : Text) (tmpl : DployTemplate) (x : Exchange)
      → req.username ≡ some username
      → kube.get_template x.log (key config.namespace req.env) ≡ ok tmpl
      → let owner = (resolve_owner (claims_map req) tmpl.spec.owner_claim username).0 in
        count_calls
          (creates_for_another owner tmpl.meta.name)
          (create_environment kube config req x).1.log
        ≡ count_calls (creates_for_another owner tmpl.meta.name) x.log
  unfolding create_environment create_environment_for count_calls
  create_owned req username tmpl x user read =
      let asked : Exchange = record x {
        log = Call.get_template (key config.namespace req.env) ∷ x.log;
      } in
      ground (
        arith,
        create_enabled_owned req username tmpl asked (build_params config.forwarded_claims req tmpl)
            refl,
      )

  -- A request for an environment creates claims of its template only, and only for the owner key that
  -- the template's owner claim gives the requester.
  pub create_environment_owned :
      (req : Request) (username : Text) (tmpl : DployTemplate) (log : Log)
      → req.username ≡ some username
      → kube.get_template log (key config.namespace req.env) ≡ ok tmpl
      → let owner = (resolve_owner (claims_map req) tmpl.spec.owner_claim username).0 in
        count_calls
          (creates_for_another owner tmpl.meta.name)
          (serve (create_environment kube config req) log).1
        ≡ count_calls (creates_for_another owner tmpl.meta.name) log
  create_environment_owned req username tmpl log user read =
      rw (serve-log (create_environment kube config req) log)
        (create_owned req username tmpl (record { response = new_response; log = log }) user read)
