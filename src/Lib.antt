-- ===== src/Lib.antt =====
-- dploy runs short-lived environments on Kubernetes. An API server turns an authenticated request into
-- a claim (DployInstanceClaim); the operator's controllers bind each claim to an instance
-- (DployInstance), warm from a template's pool or created on demand, materialise instances by Flux,
-- and end them when their lifetime is over. The parts meet only in the custom resources that they read
-- and write.
--
-- What is modelled, by file:
--   Prelude        numbers, lists, integers with Go's 64-bit wrap-around, text as code points
--   V1alpha1       the custom resources, api/v1alpha1
--   Naming         names and owner keys: internal/controller/naming.go, sanitizeOwner of
--                  internal/kube/owner.go, SanitizeUsername of internal/auth/jwt.go, ClaimName of
--                  internal/kube/client.go
--   Effective      internal/operatorconfig/resolver.go
--   Ttl            lifetimes and their anchor: resolveClaimTTL, maxLifetime, stampBoundAt, boundAtOf,
--                  expiryFrom and isExpired of internal/controller/dployinstanceclaim_controller.go,
--                  resolveInstanceTTL of internal/controller/dploytemplate_controller.go
--   Cluster        the API server as the program sees it, and computations that call it
--   Sorting        sort.Slice, and the rank of an element
--   ClaimController  internal/controller/dployinstanceclaim_controller.go, a definition for each
--                  function; Reconcile is cut into stages, each of which calls the next
--   Flux           internal/controller/flux.go: names, applied objects, and the reading of conditions
--   TemplateController  internal/controller/dploytemplate_controller.go: the tally, the fill loop, the
--                  purge and Reconcile
--   Templating     the data of internal/templating/templating.go
--   InstanceController  internal/controller/dployinstance_controller.go: what an instance shows and asks
--                  of Flux, its expiry, its teardown, and Reconcile
--   Ownership      who holds an instance while the controllers of internal/controller work at the same
--                  time: a history of what is stored, the changes each of them makes to it, and the
--                  workers of the claim controller that act on it
--   OperatorConfigController  internal/controller/operatorconfig_controller.go
--   KubeClient     internal/kube: client.go but its set-up, and owner.go, as the API server uses
--                  them; the errors that ExtendClaim returns by name are values
--   Configuration  internal/config/config.go
--   Handlers       internal/handlers, internal/models, FilterClaims of
--                  internal/kube/client.go, internal/auth/admin.go, and of cmd/api/main.go the error
--                  handler and the gate of the Manager's routes
--   Auth           internal/auth/middleware.go, Validate of jwt.go, and oidc.go
--   Routes         the protected group of cmd/api/main.go: the middleware, then a handler for each path
--                  the routes of cmd/api/main.go in their order, and what answers a request
--   Logger         internal/logger/logger.go
--   Program        the start of cmd/api/main.go with NewJWTValidator of internal/auth/jwt.go and NewClient
--                  of internal/kube/client.go; cmd/operator/main.go with each SetupWithManager of
--                  internal/controller
--   Tests          concrete objects, and the theorems applied to them
--
-- Outside the repository are the Kubernetes API server with its caches, the clock, the random
-- identifiers and the helpers of apimachinery, controller-runtime and client-go. They are the fields of
-- the record Cluster.Kube, a parameter of every function that uses them. Each answer may depend on the
-- log of all calls before it, so a theorem about every Kube holds of every server, every lag of a cache
-- and every interference by other clients; what a theorem needs of the answers is a hypothesis of its
-- own. A reconcile takes the log and returns its result with the longer log, so that what the program
-- writes, and in which order, can be stated.
--
-- A time is a number of nanoseconds, a Go int or int64 an integer that wraps at 64 bits. Text is a list
-- of code points; where the code counts bytes its text is ASCII. A log message, an error's text and
-- a printed message are not modelled: a condition's message is its format with its arguments, and an
-- error is what the apierrors predicates tell of it. A RFC 3339 text is the time it stands for. A map of
-- labels is the seven labels that the program uses; that objects keep other labels is not modelled.
-- The loops over lists recur on the list; the loop over pool candidates recurs on the attempts left,
-- of which the code makes at most eight; the fill loop recurs on fuel, which is the pool's size, since
-- each round that goes on has fewer members than that; a retry on conflict recurs on the number of
-- retries, which is the library's.
--
-- In Ownership a history gives what is stored under each name at each moment, and every worker has a
-- Kube of its own that answers from it (Ownership.History.Server): a list or a read, cached or not,
-- shows what is or was stored, an update is accepted only on the resource version it carries, and a
-- version has one content. The calls of different workers interleave as the moments say. A change of
-- the history is one that a controller makes (Ownership.History.Change); the names that generateName
-- draws may come back after a deletion, which the statements there account for: syncInstance reads by
-- name alone, so a synchronisation may then be stale (Ownership.Permanent.IsStale).
--
-- A handler of the API server works on an exchange, the response that is being written with the log of
-- calls; it returns Go's error, or panics where it dereferences nil. Handlers.serve is the recover
-- middleware with the program's error handler. Fiber's reading of a request, os.Getenv, strconv, the
-- parser of URLs, the exchange of a code and the verification of tokens are parameters. A teardown is
-- followed over a number of reconciles, each of which starts from the log of the one before it.
--
-- Not modelled: the bodies of the files that are served, CORS, the access log and the output of the
-- logger, which are the libraries' doing; the operator's flags but the number of its workers; the
-- generated deep copies, since a value is its own copy; the end-to-end tests, the web interface and the
-- Helm chart.
pub mod Auth
pub mod ClaimController
pub mod Cluster
pub mod Configuration
pub mod Effective
pub mod Flux
pub mod Handlers
pub mod InstanceController
pub mod KubeClient
pub mod Logger
pub mod Naming
pub mod OperatorConfigController
pub mod Ownership
pub mod Prelude
pub mod Program
pub mod Routes
pub mod Sorting
pub mod TemplateController
pub mod Templating
pub mod Tests
pub mod Ttl
pub mod V1alpha1
