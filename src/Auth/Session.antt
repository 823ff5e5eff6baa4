-- ===== src/Auth/Session.antt =====
-- Which logins the callback accepts.
use dploy.Prelude.{◌≡◌, refl, Bool, false, ◌++◌, Option, none, some, is_empty, arith}
use dploy.Prelude.Text.{Text, codes, text_eq_iff}
use dploy.Auth.Login.{
  Url, Reply, cookie_state, cookie_verifier, cookie_nonce, cookie_return, path_or_root,
  cleared_flow, finish_login, callback,
}

-- The browser carries the login session of this program that the provider answers: its state, and a
-- code that the session's verifier exchanges for this ID token, which has the session's nonce.
abbrev pub IsOurs :
    (Text → Text → Option (Option Text))
    → (Text → Option Text)
    → (Text → Text)
    → (Text → Text)
    → Text
    → Type 0
IsOurs exchange verify cookie query raw =
    (is_empty (cookie cookie_state) ≡ false)
    × (is_empty (cookie cookie_nonce) ≡ false)
    × (query (codes "state") ≡ cookie cookie_state)
    × (exchange (query (codes "code")) (cookie cookie_verifier) ≡ some (some raw))
    × (verify raw ≡ some (cookie cookie_nonce))

module _ (secure : Bool) (parse : Text → Option Url) (exchange : Text → Text → Option (Option Text))
    (verify : Text → Option Text) (cookie query : Text → Text) where
  abbrev pub reply : Reply
  reply = callback secure parse exchange verify cookie query

  finish_ours :
      (nonce return_url raw loc : Text) (answer : Option Text)
      → verify raw ≡ answer
      → (finish_login secure parse verify nonce return_url raw).location ≡ some loc
      → (verify raw ≡ some nonce) × (loc ≡ path_or_root parse return_url ++ codes "#token=" ++ raw)
  unfolding finish_login
  finish_ours nonce return_url raw loc none v h = absurd (ground (arith, v, h))
  finish_ours nonce return_url raw loc (some token_nonce) v h =
      (ground (arith, v, h, text_eq_iff token_nonce nonce), ground (arith, v, h))

  ours :
      (loc : Text) (answer : Option (Option Text))
      → exchange (query (codes "code")) (cookie cookie_verifier) ≡ answer
      → reply.location ≡ some loc
      → (raw : Text) × IsOurs exchange verify cookie query raw
        × (loc ≡ path_or_root parse (cookie cookie_return) ++ codes "#token=" ++ raw)
  unfolding callback
  ours loc none e h = absurd (ground (arith, e, h))
  ours loc (some none) e h = absurd (ground (arith, e, h))
  ours loc (some (some raw)) e h =
      let f =
        finish_ours (cookie cookie_nonce) (cookie cookie_return) raw loc (verify raw) refl
          (ground (arith, e, h)) in
      (
        raw,
        (
          ground (arith, e, h),
          ground (arith, e, h),
          ground (arith, e, h, text_eq_iff (query (codes "state")) (cookie cookie_state)),
          e,
          f.0,
        ),
        f.1,
      )

  -- The callback sends the browser on with a token only where the login is this program's: the state
  -- that came back is the session's, the code was exchanged with the session's verifier, and the ID
  -- token is verified and has the session's nonce. It then goes to the session's path, or to the root
  -- where that is refused. Whatever it answers, it clears the session's four cookies.
  pub callback-IsOurs :
      (reply.cookies ≡ cleared_flow secure)
      × ((loc : Text)
          → reply.location ≡ some loc
          → (raw : Text) × IsOurs exchange verify cookie query raw
            × (loc ≡ path_or_root parse (cookie cookie_return) ++ codes "#token=" ++ raw))
  unfolding callback finish_login
  callback-IsOurs = (
    ground arith,
    λ loc h. ours loc (exchange (query (codes "code")) (cookie cookie_verifier)) refl h,
  )
