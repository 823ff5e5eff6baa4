-- ===== src/Handlers/Context.antt =====
-- A request as Fiber and the middleware hand it to a handler, and computations that answer it. A
-- handler returns Go's `error`, where `none` is nil; it may also panic.
use dploy.Prelude.{ℕ, Bool, Option, none, some}
use dploy.Prelude.Text.{Text}
use dploy.V1alpha1.Common.{Message}
use dploy.KubeClient.{ClaimValue}
use dploy.Cluster.{Error, Result, Log, M}
use dploy.Handlers.Responses.{Body, no_body, problem}

-- c.Locals, c.Params("env"), c.Query and c.QueryBool.
pub record Request : Type 0 where
  pub username : Option Text
  pub claims : Option (Text → ClaimValue)
  pub env : Text
  pub query : Text → Text
  pub query_bool : Text → Bool → Bool

pub record Response : Type 0 where
  pub status : ℕ
  pub body : Body

-- The response that is being written, and the calls of the API server so far.
pub record Exchange : Type 0 where
  pub response : Response
  pub log : Log

pub data Outcome {ℓ} (A : Type ℓ) : Type ℓ where
  returns : A → Outcome A
  panics : Outcome A

abbrev pub H : Type 0 → Type 0
H A = Exchange → Outcome A × Exchange

infixl 5 ◌>>=◌ ◌>>◌
abbrev pub ◌>>=◌ : {A B : Type 0} → H A → (A → H B) → H B
◌>>=◌ m f x = let (r, x') = m x in elim r [ returns a ↦ f a x' | panics ↦ (panics, x') ]

abbrev pub ◌>>◌ : {A B : Type 0} → H A → H B → H B
◌>>◌ m k x = let (r, x') = m x in elim r [ returns a ↦ k x' | panics ↦ (panics, x') ]

abbrev pub pure : {A : Type 0} → A → H A
pure a x = (returns a, x)

-- Go's error of a handler.
abbrev pub GoError : Type 0
GoError = Option Error

-- Calls of the API server, with their error as a value.
abbrev pub calling : {A : Type 0} → M A → H (Result A)
calling m x = let (r, log) = m x.log in (returns r, record x { log = log })

-- The value behind a pointer.
abbrev pub deref : {A : Type 0} → Option A → H A
deref none x = (panics, x)
deref (some a) x = (returns a, x)

-- c.JSON, which keeps the status; it fails only on values that have no JSON, and these all have one.
abbrev pub json : Body → H GoError
json b x = (returns none, record x { response = record (x.response) { body = b } })

-- c.Status(n).JSON.
abbrev pub send : ℕ → Body → H GoError
send n b x = (returns none, record x { response = record { status = n; body = b } })

abbrev pub new_response : Response
new_response = record { status = 200; body = no_body }

abbrev pub failure : Message → Response
failure m = record { status = 500; body = problem m }

-- The recover middleware around the error handler of cmd/api/main.go; the errors of the handlers are
-- no fiber.Error.
unfoldable pub serve : H GoError → Log → Response × Log
serve h log =
    let (r, x) = h (record { response = new_response; log = log }) in
    elim r [
      | returns none ↦ (x.response, x.log)
      | returns (some e) ↦ (failure Message.error_text, x.log)
      | panics ↦ (failure Message.error_text, x.log)
    ]
