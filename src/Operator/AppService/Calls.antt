-- ===== src/Operator/AppService/Calls.antt =====
-- The calls of the reconciliation of the applications, all in the namespace of the instance, and
-- what the cluster answers (tembo-operator/src/app_service/manager.rs and ingress.rs).
use tembo.Prelude.{
  String, Bool, true, false, ◌||◌, Option, none, some, List, [], ◌∷◌, ◌++◌, list_contains,
  if◌then◌else◌,
}
use tembo.Prelude.Result.{Result, ok, err}
use tembo.Prelude.Trace.{Trace}
use tembo.Prelude.BTreeMap.{BTreeMap}
use tembo.Operator.Types.{CoreDb}
use tembo.Operator.Api.{KubeError}
use tembo.Operator.AppService.Objects.{
  OwnerReference, Deployment, Service, PodMonitor, TraefikMiddleware, IngressRoute, IngressRouteTcp,
}

pub data Call : Type 0 where
  patch_deployment : (name : String) → Deployment → Call
  patch_service : (name : String) → Service → Call
  patch_pod_monitor : (name : String) → PodMonitor → Call
  patch_middleware : (name : String) → TraefikMiddleware → Call
  patch_ingress_route : (name : String) → IngressRoute → Call
  patch_ingress_route_tcp : (name : String) → IngressRouteTcp → Call
  patch_secret : (name : String) (data_ : BTreeMap String) → Call
  delete_deployment delete_service delete_pod_monitor : (name : String) → Call
  delete_middleware delete_ingress_route delete_ingress_route_tcp : (name : String) → Call
  read_deployments read_services read_middlewares read_service read_secret : (name : String) → Call
  read_ingress_routes read_ingress_routes_tcp : Call

-- A listing is of the names of the resources, as far as they have one; those that take a name are of
-- the resources with the label of it.
pub record World : Type 0 where
  pub answer : Call → Result KubeError (Unit {0})
  pub list_deployments : String → Result KubeError (List (Option String))
  pub list_services : String → Result KubeError (List (Option String))
  pub list_middlewares : String → Result KubeError (List (Option String))
  pub list_ingress_routes : Result KubeError (List (Option String))
  pub list_ingress_routes_tcp : Result KubeError (List (Option String))
  pub get_service_uid : String → Result KubeError (Option String)
  -- The data of a secret; `none` stands for bytes that are not UTF-8.
  pub get_secret : String → Result KubeError (Option (BTreeMap (Option String)))
  pub controller_owner_ref : CoreDb → Option OwnerReference

abbrev pub is_err {ℓ κ} : {E : Type ℓ} {A : Type κ} → Result E A → Bool
is_err (err _) = true
is_err (ok _) = false

-- Whether a call is answered with an error.
unfoldable pub is_refused : World → Call → Bool
is_refused world (read_deployments name) = is_err (world.list_deployments name)
is_refused world (read_services name) = is_err (world.list_services name)
is_refused world (read_middlewares name) = is_err (world.list_middlewares name)
is_refused world read_ingress_routes = is_err world.list_ingress_routes
is_refused world read_ingress_routes_tcp = is_err world.list_ingress_routes_tcp
is_refused world (read_service name) = is_err (world.get_service_uid name)
is_refused world (read_secret name) = is_err (world.get_secret name)
is_refused world asked = is_err (world.answer asked)

-- Calls that go on after a failure, and whether there was one: `has_errors`. `none` stands for a
-- panic, after which no call is made.
abbrev pub Attempts : Type 0
Attempts = List Call × Option Bool

abbrev pub nothing : Attempts
nothing = ([], some false)

abbrev pub or_errors : Bool → Option Bool → Option Bool
or_errors b none = none
or_errors b (some c) = some (b || c)

infixr 4 ◌also◌
abbrev pub ◌also◌ : Attempts → Attempts → Attempts
(asked, none) also n = (asked, none)
(asked, some b) also n = (asked ++ n.0, or_errors b n.1)

abbrev pub attempt : World → Call → Attempts
attempt world asked = (asked ∷ [], some (is_refused world asked))

-- A call whose failure is only logged.
abbrev pub ignored : Call → Attempts
ignored asked = (asked ∷ [], some false)

unfoldable pub each : {A : Type 0} → (A → Attempts) → List A → Attempts
each body [] = nothing
each body (x ∷ xs) = body x also each body xs

-- A call that fails, and a resource without a name where the source expects one, which is a panic.
pub data IngressError : Type 0 where
  refused : KubeError → IngressError
  nameless : IngressError

abbrev pub or_refused {a} : {A : Type a} → Result KubeError A → Result IngressError A
or_refused (err problem) = err (refused problem)
or_refused (ok x) = ok x

-- An operation whose error is only noted.
abbrev pub noted : Trace Call IngressError (Unit {0}) → Attempts
noted (asked, ok _) = (asked, some false)
noted (asked, err (refused _)) = (asked, some true)
noted (asked, err nameless) = (asked, none)

-- The names that are there and not desired; `none` where there is none.
unfoldable pub undesired : List String → List String → List String
undesired desired [] = []
undesired desired (a ∷ actual) =
    let rest = undesired desired actual in if list_contains desired a then rest else a ∷ rest

unfoldable pub to_delete : List String → List String → Option (List String)
to_delete desired actual = elim (undesired desired actual) [
  | [] ↦ none
  | a ∷ rest ↦ some (a ∷ rest)
]
