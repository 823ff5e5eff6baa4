-- ===== src/Handlers/Parameters.antt =====
-- buildParams of internal/handlers/run.go, FilterClaims of internal/kube/client.go. A Go map is a list
-- of its entries with distinct keys; the empty list also stands for the nil map.
use dploy.Prelude.{◌&&◌, Option, none, some, List, [], ◌∷◌, ◌++◌, is_empty, if◌then◌else◌}
use dploy.Prelude.Text.{Text, codes, text_eq}
use dploy.V1alpha1.Template.{TemplateParameter, DployTemplate}
use dploy.KubeClient.{ClaimValue, claim_values}
use dploy.Handlers.Context.{Request}

-- m[k] = v.
unfoldable pub put : Text → Text → List (Text × Text) → List (Text × Text)
put k v [] = (k, v) ∷ []
put k v ((k', v') ∷ m) =
    let rest = put k v m in if text_eq k' k then (k, v) ∷ m else (k', v') ∷ rest

unfoldable pub lookup : Text → List (Text × Text) → Option Text
lookup k [] = none
lookup k ((k', v) ∷ m) = let rest = lookup k m in if text_eq k' k then some v else rest

-- strings.Join with a comma.
unfoldable pub join : List Text → Text
join [] = []
join (t ∷ []) = t
join (t ∷ u ∷ ts) = t ++ codes "," ++ join (u ∷ ts)

-- The loop of FilterClaims.
unfoldable pub filter_claims_into :
    (Text → ClaimValue) → List (Text × Text) → List Text → List (Text × Text)
filter_claims_into claims out [] = out
filter_claims_into claims out (key ∷ keys) =
    let vals = claim_values (claims key) in
    filter_claims_into claims (if is_empty vals then out else put key (join vals) out) keys

unfoldable pub filter_claims : (Text → ClaimValue) → List Text → List (Text × Text)
filter_claims claims allow = filter_claims_into claims [] allow

-- The requester's claims; without any, every key reads as nil.
unfoldable pub claims_map : Request → Text → ClaimValue
claims_map req = elim req.claims [ none ↦ (λ k. ClaimValue.nil) | some m ↦ m ]

-- The parameters of a request, or the name of a required one that is missing.
pub data Built : Type 0 where
  built : List (Text × Text) → Built
  missing : Text → Built

abbrev pub parameter_value : (Text → Text) → TemplateParameter → Text
parameter_value query p = if is_empty (query p.name) then p.default else query p.name

-- The loop of buildParams.
unfoldable pub overlay : (Text → Text) → List (Text × Text) → List TemplateParameter → Built
overlay query params [] = built params
overlay query params (p ∷ ps) =
    let v = parameter_value query p in
    let rest = overlay query (if is_empty v then params else put p.name v params) ps in
    if is_empty v && p.required then missing p.name else rest

unfoldable pub build_params : List Text → Request → DployTemplate → Built
build_params forwarded_claims req tmpl =
    overlay req.query (filter_claims (claims_map req) forwarded_claims) tmpl.spec.parameters
