-- ===== src/Operator/AppService/Routes.antt =====
-- The routes and the middlewares of the applications (the first half of
-- tembo-operator/src/app_service/ingress.rs).
pub mod Parted
use tembo.Prelude.{ℕ, String, true, Option, none, some, List, [], ◌∷◌, map, cons_to}
use tembo.Prelude.Text.{concat}
use tembo.Operator.Types.AppServices.{
  AppService, Routing, IngressType, http, tcp, Middleware, custom_request_headers, strip_prefix,
  replace_path_regex,
}
use tembo.Operator.AppService.Objects.{
  OwnerReference, Metadata, labels_of, RouteMiddleware, RouteService, IngressRouteRoutes,
  IngressRouteTcpRoutes, IngressRoute, IngressRouteTcp, MiddlewareSpec, headers, prefixes, regex,
  MiddleWareWrapper,
}

abbrev pub metadata_of : String → String → OwnerReference → String → Metadata
metadata_of name namespace oref labelled = record {
  name = name;
  namespace = namespace;
  owner_references = some (oref ∷ []);
  labels = labels_of labelled;
  annotations = none;
}

unfoldable pub generate_ingress :
    String → String → OwnerReference → List IngressRouteRoutes → List String → IngressRoute
generate_ingress coredb_name namespace oref routes entry_points = record {
  metadata = metadata_of coredb_name namespace oref coredb_name;
  entry_points = entry_points;
  routes = routes;
}

unfoldable pub generate_ingress_tcp :
    String → String → OwnerReference → List IngressRouteTcpRoutes → List String → IngressRouteTcp
generate_ingress_tcp name namespace oref routes entry_points = record {
  metadata = metadata_of name namespace oref name;
  entry_points = entry_points;
  routes = routes;
  passthrough = true;
}

abbrev pub dashed : String → String → String
dashed coredb_name name = concat (coredb_name ∷ "-" ∷ name ∷ [])

abbrev pub middleware_name : Middleware → String
middleware_name (custom_request_headers mw) = mw.name
middleware_name (strip_prefix mw) = mw.name
middleware_name (replace_path_regex mw) = mw.name

abbrev pub middleware_spec : Middleware → MiddlewareSpec
middleware_spec (custom_request_headers mw) = headers mw.config
middleware_spec (strip_prefix mw) = prefixes mw.config
middleware_spec (replace_path_regex mw) = regex mw.config.regex mw.config.replacement

abbrev pub traefik_middleware : String → String → OwnerReference → Middleware → MiddleWareWrapper
traefik_middleware coredb_name namespace oref mw =
    let mw_name = dashed coredb_name (middleware_name mw) in
    record {
      name = mw_name;
      mw = record {
        metadata = metadata_of mw_name namespace oref coredb_name;
        spec = middleware_spec mw;
      };
    }

unfoldable pub generate_middlewares :
    String → String → OwnerReference → List Middleware → List MiddleWareWrapper
generate_middlewares coredb_name namespace oref [] = []
generate_middlewares coredb_name namespace oref (mw ∷ mws) =
    traefik_middleware coredb_name namespace oref mw
    ∷ generate_middlewares coredb_name namespace oref mws

-- The middlewares of a route.
abbrev pub route_middlewares : String → String → Routing → Option (List RouteMiddleware)
route_middlewares namespace coredb_name route = elim route.middlewares [
  | none ↦ none
  | some names ↦
      some (map (λ m. record { name = dashed coredb_name m; namespace = some namespace }) names)
]

abbrev pub route_services : String → Routing → Option (List RouteService)
route_services resource_name route = some (record { name = resource_name; port = route.port } ∷ [])

abbrev pub http_route : String → String → String → String → Routing → String → IngressRouteRoutes
http_route resource_name namespace host_matcher coredb_name route path = record {
  matcher = concat (host_matcher ∷ " && PathPrefix(`" ∷ path ∷ "`)" ∷ []);
  services = route_services resource_name route;
  middlewares = route_middlewares namespace coredb_name route;
}

abbrev pub tcp_route : String → String → String → String → Routing → IngressRouteTcpRoutes
tcp_route resource_name namespace host_matcher_tcp coredb_name route = record {
  matcher = host_matcher_tcp;
  services = route_services resource_name route;
  middlewares = route_middlewares namespace coredb_name route;
}

-- The loop over the routings. A routing with a path and without a type ends it with no routes at
-- all, also without those that there were.
unfoldable pub http_routes :
    String → String → String → String → List Routing → Option (List IngressRouteRoutes)
http_routes resource_name namespace host_matcher coredb_name [] = some []
http_routes resource_name namespace host_matcher coredb_name (route ∷ routings) =
    let rest = http_routes resource_name namespace host_matcher coredb_name routings in
    elim route.ingress_path [
      | none ↦ rest
      | some path ↦ elim route.ingress_type [
        | none ↦ none
        | some tcp ↦ rest
        | some http ↦
            cons_to (http_route resource_name namespace host_matcher coredb_name route path) rest
      ]
    ]

unfoldable pub generate_ingress_routes :
    AppService → String → String → String → String → Option (List IngressRouteRoutes)
generate_ingress_routes appsvc resource_name namespace host_matcher coredb_name =
    elim appsvc.routing [
      | some routings ↦ http_routes resource_name namespace host_matcher coredb_name routings
      | none ↦ none
    ]

unfoldable pub tcp_routes :
    String → String → String → String → List Routing → Option (List IngressRouteTcpRoutes)
tcp_routes resource_name namespace host_matcher_tcp coredb_name [] = some []
tcp_routes resource_name namespace host_matcher_tcp coredb_name (route ∷ routings) =
    let rest = tcp_routes resource_name namespace host_matcher_tcp coredb_name routings in
    elim route.ingress_path [
      | none ↦ rest
      | some _ ↦ elim route.ingress_type [
        | none ↦ none
        | some http ↦ rest
        | some tcp ↦
            cons_to (tcp_route resource_name namespace host_matcher_tcp coredb_name route) rest
      ]
    ]

unfoldable pub generate_ingress_tcp_routes :
    AppService → String → String → String → String → Option (List IngressRouteTcpRoutes)
generate_ingress_tcp_routes appsvc resource_name namespace host_matcher_tcp coredb_name =
    elim appsvc.routing [
      | some routings ↦ tcp_routes resource_name namespace host_matcher_tcp coredb_name routings
      | none ↦ none
    ]
