-- ===== src/Handlers/Catalog.antt =====
-- The handlers of internal/handlers/environments.go.
use dploy.Prelude.{
  Bool, false, ◌&&◌, not, Option, none, some, List, [], ◌∷◌, map, length, is_empty, if◌then◌else◌,
}
use dploy.Prelude.Int.{ℤ, pos, minus_one, eq_ℤ}
use dploy.Prelude.Text.{Text, codes, text_eq}
use dploy.V1alpha1.Template.{DployTemplate}
use dploy.V1alpha1.Claim.{DployInstanceClaim}
use dploy.KubeClient.{
  resolve_owner, identities, list_templates, list_visible_templates, list_owned_claims,
  extend_count,
}
use dploy.Configuration.{Config}
use dploy.Effective.{number_or}
use dploy.Cluster.{Kube, Result, ok, err}
use dploy.Handlers.Responses.{
  AvailableEnvironmentResponse, UserEnvironmentResponse, catalog, environments,
}
use dploy.Handlers.Context.{Request, H, ◌>>=◌, GoError, calling, json}
use dploy.Handlers.Parameters.{claims_map}
use dploy.Handlers.Status.{claim_status, claim_message}
use dploy.Handlers.Run.{unauthorized, internal_error}

-- The lifetime, the extension and the limit of extensions that are shown, and whether the lifetime
-- has no end.
pub record TtlView : Type 0 where
  pub ttl : ℤ
  pub extend : ℤ
  pub max_extends : ℤ
  pub unlimited : Bool

unfoldable pub template_ttl : DployTemplate → Config → TtlView
template_ttl tmpl cfg = elim tmpl.spec.ttl [
  | none ↦ record {
    ttl = cfg.default_ttl;
    extend = cfg.extend_ttl;
    max_extends = pos 0;
    unlimited = eq_ℤ cfg.default_ttl minus_one;
  }
  | some t ↦ record {
    ttl = number_or t.seconds cfg.default_ttl;
    extend = number_or t.extend_seconds cfg.extend_ttl;
    max_extends = t.max_extends;
    unlimited = eq_ℤ (number_or t.seconds cfg.default_ttl) minus_one;
  }
]

unfoldable pub available_row : Config → DployTemplate → AvailableEnvironmentResponse
available_row cfg t =
    let v = template_ttl t cfg in
    record {
      name = t.meta.name;
      description = t.spec.description;
      icon = t.spec.icon;
      category = t.spec.category;
      ttl = v.ttl;
      extend_ttl = v.extend;
      max_extends = v.max_extends;
      is_unlimited = v.unlimited;
    }

-- The index by name, in which a later template replaces an earlier one.
unfoldable pub template_named : Text → List DployTemplate → Option DployTemplate
template_named name [] = none
template_named name (t ∷ ts) = elim (template_named name ts) [
  | some u ↦ some u
  | none ↦ if text_eq t.meta.name name then some t else none
]

-- The owner claims that the templates use.
unfoldable pub owner_claims : List DployTemplate → List Text
owner_claims [] = []
owner_claims (t ∷ ts) =
    if is_empty t.spec.owner_claim then owner_claims ts else t.spec.owner_claim ∷ owner_claims ts

abbrev pub listed : Result (List DployTemplate) → List DployTemplate
listed (ok ts) = ts
listed (err e) = []

-- What a claim's row shows of its template: the icon, the description and the lifetimes.
abbrev pub shown_of : Config → Option DployTemplate → Text × (Text × TtlView)
shown_of cfg none = (
  codes "default",
  (
    [],
    record {
      ttl = cfg.default_ttl;
      extend = cfg.extend_ttl;
      max_extends = pos 0;
      unlimited = false;
    },
  ),
)
shown_of cfg (some t) = (t.spec.icon, (t.spec.description, template_ttl t cfg))

module _ (kube : Kube) (config : Config) where
  unfoldable pub list_available : H GoError
  list_available = do
    r ← calling (list_visible_templates kube config.namespace)
    elim r [ err e ↦ internal_error | ok ts ↦ json (catalog (map (available_row config) ts)) ]

  unfoldable pub user_row : List DployTemplate → Text → DployInstanceClaim → UserEnvironmentResponse
  user_row ts self_owner claim =
      let (icon, (description, v)) = shown_of config (template_named claim.spec.template_ref ts) in
      record {
        name = claim.spec.template_ref;
        description = description;
        uuid = claim.status.uuid;
        status = claim_status claim;
        url = claim.status.connection_url;
        expires_at = claim.status.expires_at;
        icon = icon;
        extend_count = extend_count claim v.ttl v.extend;
        max_extends = v.max_extends;
        extend_ttl = v.extend;
        is_unlimited = eq_ℤ claim.status.ttl_seconds minus_one;
        owner = claim.spec.owner;
        shared = not (is_empty claim.spec.owner) && not (text_eq claim.spec.owner self_owner);
        message = claim_message kube claim;
        connection_type = claim.status.connection_type;
        connection_message = claim.status.connection_message;
      }

  unfoldable pub list_environments_of : Request → Text → H GoError
  list_environments_of req username = do
    t ← calling (list_templates kube config.namespace)
    let ts = listed t
    r ← calling (
        list_owned_claims kube config.namespace
          (identities (claims_map req) (owner_claims ts) username))
    let self_owner = (resolve_owner (claims_map req) [] username).0
    elim r [
      | err e ↦ internal_error
      | ok claims ↦ json (
          environments (map (user_row ts self_owner) claims) (length claims)
            config.max_environments_per_user)
    ]

  unfoldable pub list_user_environments : Request → H GoError
  list_user_environments req = elim req.username [
    | none ↦ unauthorized
    | some username ↦ list_environments_of req username
  ]
