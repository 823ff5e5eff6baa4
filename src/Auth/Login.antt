-- ===== src/Auth/Login.antt =====
-- Login, Callback and Logout of internal/auth/oidc.go. The parser of URLs, the random source, the
-- exchange of a code and the verifier of ID tokens are parameters.
use dploy.Prelude.{
  ℕ, Bool, true, ◌||◌, not, Option, none, some, List, [], ◌∷◌, ◌++◌, is_empty, if◌then◌else◌,
}
use dploy.Prelude.Int.{ℤ, pos, minus_one}
use dploy.Prelude.Text.{Text, codes, text_eq, has_prefix, has_code}

-- A parsed URL: `canonical` is its text without a fragment.
pub record Url : Type 0 where
  pub scheme : Text
  pub host : Text
  pub has_user : Bool
  pub path : Text
  pub canonical : Text

pub record Cookie : Type 0 where
  pub name : Text
  pub value : Text
  pub path : Text
  pub http_only : Bool
  pub secure : Bool
  pub same_site : Text
  pub max_age : ℤ

-- A status, the location of a redirect, and the cookies that are set, in order.
pub record Reply : Type 0 where
  pub status : ℕ
  pub location : Option Text
  pub cookies : List Cookie

abbrev pub cookie_state : Text
cookie_state = codes "dploy_oidc_state"

abbrev pub cookie_verifier : Text
cookie_verifier = codes "dploy_oidc_verifier"

abbrev pub cookie_nonce : Text
cookie_nonce = codes "dploy_oidc_nonce"

abbrev pub cookie_return : Text
cookie_return = codes "dploy_oidc_return"

abbrev pub slash : Text
slash = codes "/"

unfoldable pub sanitize_relative_path : (Text → Option Url) → Text → Option Text
sanitize_relative_path parse s =
    let parsed : Option Text = elim (parse s) [
      | none ↦ none
      | some u ↦
          if not (is_empty u.scheme) || not (is_empty u.host) || u.has_user
          then none
          else if has_code b'\\' u.path
          then none
          else some u.canonical
    ] in
    if not (has_prefix s slash) || has_prefix s (codes "//") || has_prefix s (codes "/\\")
    then none
    else parsed

-- The path, or the root where it is refused.
unfoldable pub path_or_root : (Text → Option Url) → Text → Text
path_or_root parse s = elim (sanitize_relative_path parse s) [ none ↦ slash | some p ↦ p ]

module _ (secure : Bool) where
  unfoldable pub flow_cookie : Text → Text → Cookie
  flow_cookie name value = record {
    name = name;
    value = value;
    path = codes "/auth";
    http_only = true;
    secure = secure;
    same_site = codes "Lax";
    max_age = pos 600;
  }

  unfoldable pub cleared_cookie : Text → Cookie
  cleared_cookie name = record {
    name = name;
    value = [];
    path = codes "/auth";
    http_only = true;
    secure = secure;
    same_site = codes "Lax";
    max_age = minus_one;
  }

  unfoldable pub cleared_flow : List Cookie
  cleared_flow =
      cleared_cookie cookie_state
      ∷ cleared_cookie cookie_verifier
      ∷ cleared_cookie cookie_nonce
      ∷ cleared_cookie cookie_return
      ∷ []

  module _ (parse : Text → Option Url) where
    -- The two random texts may fail; the verifier does not. `auth_code_url` takes the state, the
    -- verifier and the nonce.
    unfoldable pub login :
        Option Text → Option Text → Text → (Text → Text → Text → Text) → Text → Reply
    login state nonce verifier auth_code_url raw_return = elim state [
      | none ↦ record { status = 500; location = none; cookies = [] }
      | some s ↦ elim nonce [
        | none ↦ record { status = 500; location = none; cookies = [] }
        | some n ↦ record {
          status = 302;
          location = some (auth_code_url s verifier n);
          cookies =
              flow_cookie cookie_state s
              ∷ flow_cookie cookie_verifier verifier
              ∷ flow_cookie cookie_nonce n
              ∷ flow_cookie cookie_return (path_or_root parse raw_return)
              ∷ [];
        }
      ]
    ]

    abbrev refusal : ℕ → Reply
    refusal n = record { status = n; location = none; cookies = cleared_flow }

    -- From the ID token on; `verify` answers with the token's nonce.
    unfoldable pub finish_login : (Text → Option Text) → Text → Text → Text → Reply
    finish_login verify nonce return_url raw_id_token = elim (verify raw_id_token) [
      | none ↦ refusal 502
      | some token_nonce ↦
          if text_eq token_nonce nonce
          then record {
            status = 302;
            location = some (path_or_root parse return_url ++ codes "#token=" ++ raw_id_token);
            cookies = cleared_flow;
          }
          else refusal 400
    ]

    -- `exchange` takes the code and the verifier, and answers with the ID token where there is one.
    unfoldable pub callback :
        (Text → Text → Option (Option Text))
        → (Text → Option Text)
        → (Text → Text)
        → (Text → Text)
        → Reply
    callback exchange verify cookie query =
        let state = cookie cookie_state in
        let verifier = cookie cookie_verifier in
        let nonce = cookie cookie_nonce in
        let code = query (codes "code") in
        let exchanged : Reply = elim (exchange code verifier) [
          | none ↦ refusal 502
          | some none ↦ refusal 502
          | some (some raw) ↦ finish_login verify nonce (cookie cookie_return) raw
        ] in
        if not (is_empty (query (codes "error")))
        then refusal 400
        else if is_empty state || (is_empty verifier || is_empty nonce)
        then refusal 400
        else if not (text_eq (query (codes "state")) state)
        then refusal 400
        else if is_empty code
        then refusal 400
        else exchanged

  unfoldable pub logout : Reply
  logout = record { status = 302; location = some slash; cookies = [] }
