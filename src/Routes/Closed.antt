-- ===== src/Routes/Closed.antt =====
-- What is reached without a token.
use dploy.Prelude.{
  ◌≡◌, refl, sym, ap, ◌∙◌, subst, Bool, true, false, ◌⊎◌, inl, inr, Option, none, some, List, [],
  ◌∷◌, ◌++◌, All, is_empty, arith, Bool-cases,
}
use dploy.Prelude.Text.{Text, codes, text_eq}
use dploy.KubeClient.{ClaimValue}
use dploy.Configuration.{Config}
use dploy.Cluster.{Kube, Result, Log}
use dploy.Handlers.{Request, H, GoError, Response, serve}
use dploy.Auth.{trim_prefix, validate, middleware}
use dploy.Routes.App.{
  Method, Target, Entry, public_entries, protected_entries, entries, find, answer_behind,
}

-- The targets that are meant for everybody.
abbrev pub is_public : Target → Bool
is_public (Target.protected r) = false
is_public Target.fallback = false
is_public _ = true

abbrev IsPublicEntry : Entry → Type 0
IsPublicEntry (Entry.endpoint m p t) = is_public t ≡ true
IsPublicEntry (Entry.static p) = Unit
IsPublicEntry (Entry.group p) = ⊥

public_entries-IsPublicEntry : All IsPublicEntry public_entries
unfolding public_entries
public_entries-IsPublicEntry =
    (tt, (refl, (refl, (refl, (refl, (refl, (refl, (refl, (refl, tt)))))))))

-- A target for everybody, with no middleware before it.
abbrev pub IsOpen : Bool × Option Target → Type 0
IsOpen r = (t : Target) × (is_public t ≡ true) × (r ≡ (false, some t))

module _ (answers : Method → Text → Method → Text → Bool) (under has_file : Text → Text → Bool)
    (method : Method) (path : Text) where
  -- What answers the request.
  abbrev pub found : Bool × Option Target
  found = find answers under has_file method path entries false

  find-guarded : (es : List Entry) → (find answers under has_file method path es true).0 ≡ true
  unfolding find
  find-guarded [] = refl
  find-guarded (Entry.endpoint m p t ∷ es) = ground (arith, find-guarded es)
  find-guarded (Entry.static p ∷ es) = ground (arith, find-guarded es)
  find-guarded (Entry.group p ∷ es) = find-guarded es

  find-public :
      (es rest : List Entry)
      → All IsPublicEntry es
      → IsOpen (find answers under has_file method path (es ++ rest) false)
        ⊎ (find answers under has_file method path (es ++ rest) false
            ≡ find answers under has_file method path rest false)
  unfolding find
  find-public [] rest h = inr refl
  find-public (Entry.endpoint m p t ∷ es) rest h = elim (Bool-cases (answers m p method path)) [
    | inl here ↦ inl (t, h.0, ground arith)
    | inr on ↦ rw on (find-public es rest h.1)
  ]
  find-public (Entry.static p ∷ es) rest h = elim (Bool-cases (has_file p path)) [
    | inl here ↦ inl (Target.static_file, refl, ground arith)
    | inr on ↦ rw on (find-public es rest h.1)
  ]
  find-public (Entry.group p ∷ es) rest h = absurd h.0

  -- Under the group's prefix what is not open is behind the middleware.
  find-entries : under (codes "/api") path ≡ true → IsOpen found ⊎ (found.0 ≡ true)
  unfolding entries find
  find-entries h =
      elim (find-public public_entries (Entry.group (codes "/api") ∷ protected_entries)
        public_entries-IsPublicEntry) [
          | inl open_one ↦ inl open_one
          | inr on ↦ inr (
              ap (λ r. r.0) on
              ∙ subst (λ b. (find answers under has_file method path protected_entries b).0 ≡ true)
                  (sym h) (find-guarded protected_entries))
        ]

middleware_denies :
    (verify : Text → Option (Text → ClaimValue)) (username_claim auth_header : Text) (req : Request)
    (next : Request → H GoError) (log : Log)
    → verify (trim_prefix auth_header (codes "Bearer ")) ≡ none
    → ((serve (middleware verify username_claim auth_header req next) log).0.status ≡ 401)
      × ((serve (middleware verify username_claim auth_header req next) log).1 ≡ log)
unfolding serve middleware validate
middleware_denies verify username_claim auth_header req next log v =
    elim (Bool-cases (is_empty auth_header)) [
      | inl missing ↦ (ground arith, ground arith)
      | inr there ↦
          elim (Bool-cases (text_eq (trim_prefix auth_header (codes "Bearer ")) auth_header)) [
            | inl bare ↦ (ground arith, ground arith)
            | inr bearer ↦ (ground arith, ground arith)
          ]
    ]

module _ (kube : Kube) (config : Config) (verify : Text → Option (Text → ClaimValue))
    (delete_nil : H (Result (Unit {0}))) (unmatched : H GoError)
    (elsewhere : Target → Request → H GoError) (answers : Method → Text → Method → Text → Bool)
    (under has_file : Text → Text → Bool) (method : Method) (path auth_header : Text)
    (req : Request) (log : Log) where
  -- The program's answer to the request.
  abbrev pub served : Response × Log
  served =
      let f = found answers under has_file method path in
      serve
        (answer_behind kube config verify delete_nil unmatched elsewhere f.0 f.1 auth_header req)
        log

  -- Whatever its method and its path under /api are, a request without a verified token is answered by
  -- an endpoint that is for everybody, or with a 401 and no call of the API server.
  pub app_denies :
      under (codes "/api") path ≡ true
      → verify (trim_prefix auth_header (codes "Bearer ")) ≡ none
      → IsOpen (found answers under has_file method path)
        ⊎ ((served.0.status ≡ 401) × (served.1 ≡ log))
  unfolding answer_behind
  app_denies h v = elim (find-entries answers under has_file method path h) [
    | inl open_one ↦ inl open_one
    | inr guarded ↦
        inr
          (rw guarded (middleware_denies verify config.jwt_username_claim auth_header req _ log v))
  ]
