-- ===== src/Routes/Admission.antt =====
-- Who gets past the middleware of the protected group.
use dploy.Prelude.{
  ◌≡◌, refl, true, false, ◌⊎◌, inl, inr, Option, none, some, [], ◌∷◌, ◌++◌, length, is_empty, arith,
  Bool-cases,
}
use dploy.Prelude.Text.{Text, codes, text_eq, text_eq_refl, has_prefix, drop}
use dploy.Naming.{sanitize_username}
use dploy.KubeClient.{ClaimValue}
use dploy.Configuration.{Config}
use dploy.Cluster.{Kube, Result, Log}
use dploy.Handlers.{Request, H, serve}
use dploy.Auth.{trim_prefix, string_of, validate, middleware}
use dploy.Routes.Api.{Route, dispatch, api}

append-drop : (s p : Text) → has_prefix s p ≡ true → s ≡ p ++ drop (length p) s
unfolding has_prefix drop
append-drop s [] h = refl
append-drop [] (d ∷ p) h = absurd (ground (arith, h))
append-drop (c ∷ s) (d ∷ p) h =
    let rest : has_prefix s p ≡ true = ground (arith, h) in ground (arith, h, append-drop s p rest)

-- A text that loses a prefix is the prefix and the rest.
trim_prefix_lem : (s p : Text) → text_eq (trim_prefix s p) s ≡ false → s ≡ p ++ trim_prefix s p
unfolding trim_prefix
trim_prefix_lem s p h = elim (Bool-cases (has_prefix s p)) [
  | inl begins ↦ ground (arith, begins, append-drop s p begins)
  | inr none_there ↦ absurd (ground (arith, none_there, h, text_eq_refl s))
]

string_of_lem :
    (v : ClaimValue) → is_empty (string_of v) ≡ false → v ≡ ClaimValue.string (string_of v)
unfolding string_of
string_of_lem ClaimValue.nil h = ground (arith, h)
string_of_lem (ClaimValue.string t) h = refl
string_of_lem (ClaimValue.strings ts) h = ground (arith, h)
string_of_lem (ClaimValue.anys es) h = ground (arith, h)
string_of_lem (ClaimValue.bool b) h = ground (arith, h)
string_of_lem (ClaimValue.float t) h = ground (arith, h)
string_of_lem (ClaimValue.printed t) h = ground (arith, h)

module _ (kube : Kube) (config : Config) (verify : Text → Option (Text → ClaimValue))
    (delete_nil : H (Result (Unit {0}))) (route : Route) (auth_header : Text) (req : Request)
    (log : Log) where
  -- The header is a bearer token that is verified and names its user, and the handler answers for that
  -- user and these claims.
  abbrev pub Admitted : Type 0
  Admitted =
      (token : Text) × (raw : Text) × (claims : Text → ClaimValue) × (auth_header
        ≡ codes "Bearer " ++ token)
      × (verify token ≡ some claims)
      × (claims config.jwt_username_claim ≡ ClaimValue.string raw)
      × (is_empty raw ≡ false)
      × (serve (api kube config verify delete_nil route auth_header req) log
          ≡ serve
              (dispatch kube config verify delete_nil route
                (record req { username = some (sanitize_username raw); claims = some claims }))
              log)

  abbrev pub Refused : Type 0
  Refused =
      ((serve (api kube config verify delete_nil route auth_header req) log).0.status ≡ 401)
      × ((serve (api kube config verify delete_nil route auth_header req) log).1 ≡ log)

  verified :
      (answer : Option (Text → ClaimValue))
      → verify (trim_prefix auth_header (codes "Bearer ")) ≡ answer
      → is_empty auth_header ≡ false
      → text_eq (trim_prefix auth_header (codes "Bearer ")) auth_header ≡ false
      → Refused ⊎ Admitted
  unfolding serve api middleware validate
  verified none v there bearer = inl (ground (arith, v), ground (arith, v))
  verified (some claims) v there bearer =
      let raw = string_of (claims config.jwt_username_claim) in
      elim (Bool-cases (is_empty raw)) [
        | inl blank ↦ inl (ground (arith, v), ground (arith, v))
        | inr named ↦ inr (
          trim_prefix auth_header (codes "Bearer "),
          raw,
          claims,
          trim_prefix_lem auth_header (codes "Bearer ") bearer,
          v,
          string_of_lem (claims config.jwt_username_claim) named,
          named,
          ground (arith, v),
        )
      ]

  -- Every route of the protected group answers a request in one of two ways: with a 401 and no call of
  -- the API server, or as its handler does for the user that a verified bearer token names.
  pub api_admits : Refused ⊎ Admitted
  unfolding serve api middleware
  api_admits = elim (Bool-cases (is_empty auth_header)) [
    | inl missing ↦ inl (ground arith, ground arith)
    | inr there ↦
        elim (Bool-cases (text_eq (trim_prefix auth_header (codes "Bearer ")) auth_header)) [
          | inl bare ↦ inl (ground arith, ground arith)
          | inr bearer ↦
              verified (verify (trim_prefix auth_header (codes "Bearer "))) refl there bearer
        ]
  ]
