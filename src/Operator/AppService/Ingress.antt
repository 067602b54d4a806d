-- ===== src/Operator/AppService/Ingress.antt =====
-- The routes and the middlewares in the cluster (`reconcile_ingress` and `reconcile_ingress_tcp` of
-- tembo-operator/src/app_service/ingress.rs).
pub mod Made
use tembo.Prelude.{
  String, Bool, true, false, Option, none, some, List, [], ◌∷◌, map, any, members, ◌==◌,
  if◌then◌else◌,
}
use tembo.Prelude.Result.{Result, ok, err}
use tembo.Prelude.Trace.{Trace, pure, fail, call, tell, for_each, ◌>>=◌, ◌>>◌}
use tembo.Operator.Types.AppServices.{Middleware}
use tembo.Operator.Api.{KubeError}
use tembo.Operator.AppService.Objects.{
  OwnerReference, IngressRouteRoutes, IngressRouteTcpRoutes, RouteService, MiddleWareWrapper,
}
use tembo.Operator.AppService.Routes.{
  dashed, generate_ingress, generate_ingress_tcp, generate_middlewares,
}
use tembo.Operator.AppService.Calls.{
  Call, World, IngressError, refused, nameless, or_refused, to_delete, read_middlewares,
  read_ingress_routes, read_ingress_routes_tcp, patch_middleware, patch_ingress_route,
  patch_ingress_route_tcp, delete_middleware, delete_ingress_route, delete_ingress_route_tcp,
}

abbrev pub Run : Type 0
Run = Trace Call IngressError (Unit {0})

abbrev pub cons_name :
    String → Result IngressError (List String) → Result IngressError (List String)
cons_name name (err problem) = err problem
cons_name name (ok names) = ok (name ∷ names)

-- `expect("no name on resource")` on each resource.
unfoldable pub expected : List (Option String) → Result IngressError (List String)
expected [] = ok []
expected (none ∷ found) = err nameless
expected (some name ∷ found) = cons_name name (expected found)

abbrev pub named : Result KubeError (List (Option String)) → Result IngressError (List String)
named (err problem) = err (refused problem)
named (ok found) = expected found

abbrev pub get_middlewares : World → String → Trace Call IngressError (List String)
get_middlewares world name = call (read_middlewares name) (named (world.list_middlewares name))

-- Failures of these calls are only logged.
unfoldable pub change_middlewares : List MiddleWareWrapper → List String → Run
change_middlewares desired actual = do
  for_each (λ d. tell (delete_middleware d))
      (members (to_delete (map (λ (mw : MiddleWareWrapper). mw.name) desired) actual))
  for_each (λ (mw : MiddleWareWrapper). tell (patch_middleware mw.name mw.mw)) desired

unfoldable pub reconcile_middlewares : World → String → List MiddleWareWrapper → Run
reconcile_middlewares world name desired = get_middlewares world name >>= change_middlewares desired

-- The first of the routes that are there goes.
abbrev pub delete_first : World → (String → Call) → List (Option String) → Run
delete_first world delete [] = pure tt
delete_first world delete (none ∷ found) = fail nameless
delete_first world delete (some name ∷ found) =
    call (delete name) (or_refused (world.answer (delete name)))

abbrev pub apply_ingress_route :
    World → String → String → OwnerReference → List IngressRouteRoutes → List String → Run
apply_ingress_route world coredb_name ns oref [] entry_points =
    call read_ingress_routes (or_refused world.list_ingress_routes)
    >>= delete_first world delete_ingress_route
apply_ingress_route world coredb_name ns oref (r ∷ routes) entry_points =
    let asked =
      patch_ingress_route coredb_name
        (generate_ingress coredb_name ns oref (r ∷ routes) entry_points) in
    call asked (or_refused (world.answer asked))

unfoldable pub reconcile_ingress :
    World
    → String
    → String
    → OwnerReference
    → List IngressRouteRoutes
    → List Middleware
    → List String
    → Run
reconcile_ingress world coredb_name ns oref desired_routes desired_middlewares entry_points = do
  reconcile_middlewares world coredb_name
      (generate_middlewares coredb_name ns oref desired_middlewares)
  apply_ingress_route world coredb_name ns oref desired_routes entry_points

-- Some route leads to the service.
unfoldable pub is_routed_to : String → List IngressRouteTcpRoutes → Bool
is_routed_to name routes =
    any
      (λ (r : IngressRouteTcpRoutes).
        any (λ (s : RouteService). s.name == name) (members r.services))
      routes

abbrev pub apply_ingress_route_tcp :
    World → String → String → OwnerReference → List IngressRouteTcpRoutes → List String → Run
apply_ingress_route_tcp world name ns oref [] entry_points_tcp =
    call read_ingress_routes_tcp (or_refused world.list_ingress_routes_tcp)
    >>= delete_first world delete_ingress_route_tcp
apply_ingress_route_tcp world name ns oref (r ∷ routes) entry_points_tcp =
    let asked =
      patch_ingress_route_tcp name
        (generate_ingress_tcp name ns oref (r ∷ routes) entry_points_tcp) in
    if is_routed_to name (r ∷ routes) then call asked (or_refused (world.answer asked)) else pure tt

unfoldable pub reconcile_ingress_tcp :
    World
    → String
    → String
    → OwnerReference
    → List IngressRouteTcpRoutes
    → List Middleware
    → List String
    → String
    → Run
reconcile_ingress_tcp world coredb_name ns oref routes desired_middlewares entry_points_tcp
      app_name =
    do
      reconcile_middlewares world (dashed coredb_name app_name)
          (generate_middlewares (dashed coredb_name app_name) ns oref desired_middlewares)
      apply_ingress_route_tcp world (dashed coredb_name app_name) ns oref routes entry_points_tcp
