-- ===== src/Handlers/Forwarded.antt =====
-- The parameters of a request as a function of their names.
use dploy.Prelude.{
  ◌≡◌, refl, ap, Bool, false, ◌&&◌, ◌||◌, not, Option, none, some, List, [], ◌∷◌, is_empty, arith,
  if◌then◌else◌, Bool-cases, inl, inr,
}
use dploy.Prelude.Text.{Text, text_eq, text_eq_iff}
use dploy.V1alpha1.Template.{TemplateParameter, DployTemplate}
use dploy.KubeClient.{ClaimValue, claim_values}
use dploy.Handlers.Context.{Request}
use dploy.Handlers.Parameters.{
  put, lookup, join, filter_claims_into, filter_claims, claims_map, parameter_value, Built, built,
  missing, overlay, build_params,
}

-- The last declaration of a name that has a value gives it.
abbrev pub declared : (Text → Text) → Text → List TemplateParameter → Option Text
declared query k [] = none
declared query k (p ∷ ps) = elim (declared query k ps) [
  | some v ↦ some v
  | none ↦
      if text_eq p.name k && not (is_empty (parameter_value query p))
      then some (parameter_value query p)
      else none
]

abbrev pub is_listed : Text → List Text → Bool
is_listed k [] = false
is_listed k (x ∷ xs) = text_eq x k || is_listed k xs

-- A claim that is listed and has values, with the values joined.
abbrev pub forwarded : (Text → ClaimValue) → Text → List Text → Option Text
forwarded claims k allow =
    if is_listed k allow && not (is_empty (claim_values (claims k)))
    then some (join (claim_values (claims k)))
    else none

abbrev pub or_else : Option Text → Option Text → Option Text
or_else none b = b
or_else (some a) b = some a

-- The first required parameter that has no value.
abbrev pub lacking : (Text → Text) → List TemplateParameter → Option Text
lacking query [] = none
lacking query (p ∷ ps) =
    let rest = lacking query ps in
    if is_empty (parameter_value query p) && p.required then some p.name else rest

-- Names are given the values that the template and the token say, unless one is lacking.
abbrev pub CarriesWanted : List Text → Request → DployTemplate → Built → Type 0
CarriesWanted allow req tmpl (built m) =
    (lacking req.query tmpl.spec.parameters ≡ none)
    × ((k : Text)
        → lookup k m
          ≡ or_else (declared req.query k tmpl.spec.parameters)
              (forwarded (claims_map req) k allow))
CarriesWanted allow req tmpl (missing n) = lacking req.query tmpl.spec.parameters ≡ some n

-- The parameter that a result says is lacking.
abbrev lack_of : Built → Option Text
lack_of (built m) = none
lack_of (missing n) = some n

lookup-put :
    (k j v : Text) (m : List (Text × Text))
    → lookup k (put j v m) ≡ (if text_eq j k then some v else lookup k m)
unfolding lookup put
lookup-put k j v [] = refl
lookup-put k j v ((i, w) ∷ m) =
    ground (arith, lookup-put k j v m, text_eq_iff i j, text_eq_iff i k, text_eq_iff j k)

lookup-filter_claims_into :
    (claims : Text → ClaimValue) (k : Text) (out : List (Text × Text)) (keys : List Text)
    → lookup k (filter_claims_into claims out keys)
      ≡ or_else (forwarded claims k keys) (lookup k out)
unfolding filter_claims_into
lookup-filter_claims_into claims k out [] = refl
lookup-filter_claims_into claims k out (key ∷ keys) =
    let vals = claim_values (claims key) in
    let next = if is_empty vals then out else put key (join vals) out in
    let rest = lookup-filter_claims_into claims k next keys in
    let here = lookup-put k key (join vals) out in
    elim (Bool-cases (text_eq key k)) [
      | inl same ↦
          let e : vals ≡ claim_values (claims k) =
            ap (λ x. claim_values (claims x)) ((text_eq_iff key k).0 same) in
          ground (arith, rest, here, e, same)
      | inr other ↦ ground (arith, rest, here, other)
    ]

lookup-overlay :
    (query : Text → Text) (k : Text) (m m' : List (Text × Text)) (ps : List TemplateParameter)
    → overlay query m ps ≡ built m'
    → lookup k m' ≡ or_else (declared query k ps) (lookup k m)
unfolding overlay
lookup-overlay query k m m' [] h = ground (arith, h)
lookup-overlay query k m m' (p ∷ ps) h =
    let v = parameter_value query p in
    let next = if is_empty v then m else put p.name v m in
    let rest : overlay query next ps ≡ built m' = ground (arith, h) in
    ground (arith, lookup-overlay query k next m' ps rest, lookup-put k p.name v m)

lacking-overlay :
    (query : Text → Text) (m : List (Text × Text)) (ps : List TemplateParameter)
    → lacking query ps ≡ lack_of (overlay query m ps)
unfolding overlay
lacking-overlay query m [] = refl
lacking-overlay query m (p ∷ ps) =
    let v = parameter_value query p in
    let next = if is_empty v then m else put p.name v m in
    ground (arith, lacking-overlay query next ps)

built-CarriesWanted :
    (allow : List Text) (req : Request) (tmpl : DployTemplate) (r : Built)
    → build_params allow req tmpl ≡ r
    → CarriesWanted allow req tmpl r
unfolding build_params filter_claims lookup
built-CarriesWanted allow req tmpl (built m) h =
    let token = filter_claims (claims_map req) allow in
    (
      ground (arith, lacking-overlay req.query token tmpl.spec.parameters, h),
      λ k. ground (
        arith,
        lookup-overlay req.query k token m tmpl.spec.parameters h,
        lookup-filter_claims_into (claims_map req) k [] allow,
      ),
    )
built-CarriesWanted allow req tmpl (missing n) h =
    let token = filter_claims (claims_map req) allow in
    ground (arith, lacking-overlay req.query token tmpl.spec.parameters, h)

-- A request's parameters are built exactly where no required one is lacking, and a lookup of a name
-- in them gives what the template declares for it (the query's value, or else the default) and
-- otherwise the requester's claim of that name where it is configured to be forwarded; nothing else
-- is in them. Else the first required parameter that has no value is named.
pub build_params-CarriesWanted :
    (allow : List Text) (req : Request) (tmpl : DployTemplate)
    → CarriesWanted allow req tmpl (build_params allow req tmpl)
build_params-CarriesWanted allow req tmpl =
    built-CarriesWanted allow req tmpl (build_params allow req tmpl) refl
