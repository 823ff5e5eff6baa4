-- ===== src/Program/Api.antt =====
-- The start of the API server. What Kubernetes' and go-oidc's libraries find or build are parameters, as
-- are the environment and the listener.
use dploy.Prelude.{ℕ, Bool, Option, none, some, ◌++◌, is_empty, if◌then◌else◌}
use dploy.Prelude.Int.{ℤ}
use dploy.Prelude.Text.{Text, codes}
use dploy.Configuration.{Config, loaded, required, load}
use dploy.Auth.{Endpoint, OidcHandler, new_oidc_handler}
use dploy.Logger.{Logger, init, fatal_exits}

-- JWTValidator: the keys by their URL, and what a token has to carry.
pub record JwtValidator : Type 0 where
  pub jwks_url : Text
  pub issuer : Text
  pub client_id : Text
  pub skip_client_id_check : Bool
  pub username_claim : Text

unfoldable pub new_jwt_validator : Text → Text → Text → Text → JwtValidator
new_jwt_validator jwks_url issuer audience username_claim = record {
  jwks_url = jwks_url;
  issuer = issuer;
  client_id = audience;
  skip_client_id_check = is_empty audience;
  username_claim = username_claim;
}

-- kube.Client: the library's client, with the namespace of the catalogue.
pub record Client (A : Type 0) : Type 0 where
  pub c : A
  pub namespace : Text
  pub config : Config

-- What the process could not start without.
pub data Stage : Type 0 where
  kubernetes_client oidc_handler server : Stage

-- A start panics without a configuration, exits at a stage, goes on past a Fatal that does not exit, or
-- listens on an address.
pub data Startup (A : Type 0) : Type 0 where
  panicked : Text → Startup A
  exited : Stage → Startup A
  went_on : Stage → Startup A
  listening : Client A → JwtValidator → OidcHandler → Text → Startup A

unfoldable pub fatal : {A : Type 0} → Option Logger → Stage → Startup A
fatal logger stage = if fatal_exits logger then Startup.exited stage else Startup.went_on stage

-- loadRestConfig: the cluster's own configuration, or that of a kubeconfig.
unfoldable pub load_rest_config : {R : Type 0} → Option R → Option R → Option R
load_rest_config (some c) kubeconfig = some c
load_rest_config none kubeconfig = kubeconfig

-- rest.InClusterConfig and the kubeconfig, whether the scheme takes the types, and client.New.
module _ {R A : Type 0} (in_cluster kubeconfig : Option R) (registers : Bool)
    (new : R → Option A) where
  unfoldable pub new_client : Config → Option (Client A)
  new_client cfg = elim (load_rest_config in_cluster kubeconfig) [
    | none ↦ none
    | some rest ↦
        let built : Option (Client A) = elim (new rest) [
          | none ↦ none
          | some c ↦ some (record { c = c; namespace = cfg.namespace; config = cfg })
        ] in
        if registers then built else none
  ]

  -- The environment with strconv's parsers, url.Parse, the discovery by attempt, and whether a listener
  -- on an address comes to an error.
  module _ (env : Text → Text) (atoi : Text → Option ℤ) (parse_bool : Text → Option Bool)
      (parse : Text → Option (Text × Text)) (discovered : ℕ → Option Endpoint)
      (listen_fails : Text → Bool) where
    -- From the building of the address on.
    unfoldable pub listen :
        Config → Option Logger → Client A → JwtValidator → OidcHandler → Startup A
    listen cfg logger client validator oidc =
        let addr = cfg.server_host ++ (codes ":" ++ cfg.server_port) in
        if listen_fails addr
        then fatal logger Stage.server
        else Startup.listening client validator oidc addr

    unfoldable pub start : Startup A
    start = elim (load env atoi parse_bool) [
      | required variable ↦ Startup.panicked variable
      | loaded cfg ↦
          let logger = init cfg.debug none in
          elim (new_client cfg) [
            | none ↦ fatal logger Stage.kubernetes_client
            | some client ↦
                let validator =
                  new_jwt_validator cfg.jwks_url cfg.jwt_issuer cfg.jwt_audience
                    cfg.jwt_username_claim in
                elim (new_oidc_handler parse cfg discovered) [
                  | none ↦ fatal logger Stage.oidc_handler
                  | some oidc ↦ listen cfg logger client validator oidc
                ]
          ]
    ]
