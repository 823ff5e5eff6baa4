-- ===== src/Routes/App.antt =====
-- The routes of cmd/api/main.go in the order in which they are registered, and the answer to a request
-- that none but they decide. Fiber's matching is a parameter.
use dploy.Prelude.{Bool, ◌||◌, Option, none, some, List, [], ◌∷◌, ◌++◌, if◌then◌else◌}
use dploy.Prelude.Text.{Text, codes}
use dploy.KubeClient.{ClaimValue}
use dploy.Configuration.{Config}
use dploy.Cluster.{Kube, Result}
use dploy.Handlers.{Request, H, GoError, get_health, get_ready, get_ui_config}
use dploy.Auth.{middleware}
use dploy.Routes.Api.{Route, available_route, dispatch}

pub data Method : Type 0 where
  get head post delete options other : Method

-- What answers: the handlers without a token, a route of the protected group, the page of the web
-- interface under /run/, and the same page for every path that is left.
pub data Target : Type 0 where
  static_file health ready login callback logout ui_config available run_page : Target
  protected : Route → Target
  fallback : Target

-- A route with its method and pattern, a directory of files, or a group whose middleware stands before
-- all that is registered after it.
pub data Entry : Type 0 where
  endpoint : Method → Text → Target → Entry
  static : Text → Entry
  group : Text → Entry

unfoldable pub public_entries : List Entry
public_entries =
    static (codes "/static")
    ∷ endpoint get (codes "/health") health
    ∷ endpoint get (codes "/ready") ready
    ∷ endpoint get (codes "/auth/login") login
    ∷ endpoint get (codes "/auth/callback") callback
    ∷ endpoint get (codes "/auth/logout") logout
    ∷ endpoint get (codes "/api/ui-config") ui_config
    ∷ endpoint get (codes "/api/environments/available") available
    ∷ endpoint get (codes "/run/:env") run_page
    ∷ []

unfoldable pub protected_entries : List Entry
protected_entries =
    endpoint get (codes "/api/environments") (protected Route.list)
    ∷ endpoint get (codes "/api/run/:env") (protected Route.create)
    ∷ endpoint get (codes "/api/run/:env/status") (protected Route.status)
    ∷ endpoint post (codes "/api/run/:env/extend") (protected Route.extend)
    ∷ endpoint delete (codes "/api/run/:env") (protected Route.delete)
    ∷ endpoint get (codes "/api/me") (protected Route.self)
    ∷ endpoint get (codes "/api/admin/instances") (protected Route.all_instances)
    ∷ endpoint get (codes "/api/admin/templates") (protected Route.all_templates)
    ∷ endpoint get (codes "/*") fallback
    ∷ []

unfoldable pub entries : List Entry
entries = public_entries ++ group (codes "/api") ∷ protected_entries

-- Whether a route of a method and a pattern answers a method and a path, whether a path lies under a
-- group's prefix, and whether a directory has the file.
module _ (answers : Method → Text → Method → Text → Bool) (under has_file : Text → Text → Bool)
    (method : Method) (path : Text) where
  -- The first entry that answers, and whether the group's middleware stands before it.
  unfoldable pub find : List Entry → Bool → Bool × Option Target
  find [] guarded = (guarded, none)
  find (endpoint m p t ∷ es) guarded =
      if answers m p method path then (guarded, some t) else find es guarded
  find (static p ∷ es) guarded =
      if has_file p path then (guarded, some static_file) else find es guarded
  find (group p ∷ es) guarded = find es (guarded || under p path)

-- Fiber's error where nothing answers, and the answers with files and those of Auth.Login.
module _ (kube : Kube) (config : Config) (verify : Text → Option (Text → ClaimValue))
    (delete_nil : H (Result (Unit {0}))) (unmatched : H GoError)
    (elsewhere : Target → Request → H GoError) where
  unfoldable pub answer : Target → Request → H GoError
  answer health req = get_health
  answer ready req = get_ready kube config
  answer ui_config req = get_ui_config config
  answer available req = available_route kube config
  answer (protected route) req = dispatch kube config verify delete_nil route req
  answer t req = elsewhere t req

  answer_found : Option Target → Request → H GoError
  answer_found none req = unmatched
  answer_found (some t) req = answer t req

  -- The answer to a request with its Authorization header, by what was found.
  unfoldable pub answer_behind : Bool → Option Target → Text → Request → H GoError
  unfolding answer_found
  answer_behind guarded found auth_header req =
      if guarded
      then middleware verify config.jwt_username_claim auth_header req (answer_found found)
      else answer_found found req
