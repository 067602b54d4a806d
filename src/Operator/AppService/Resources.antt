-- ===== src/Operator/AppService/Resources.antt =====
-- All that is made for the applications of an instance (`generate_resource` and
-- `generate_appsvc_annotations` of tembo-operator/src/app_service/manager.rs).
pub mod Annotations
use Prim.Native.String
use tembo.Prelude.{
  String, Bool, true, false, Option, none, some, List, [], ◌∷◌, ◌++◌, map, members, cons_to, ◌==◌,
  if◌then◌else◌,
}
use tembo.Prelude.Text.{concat}
use tembo.Prelude.BTreeMap
use tembo.Prelude.BTreeMap.{BTreeMap}
use tembo.Operator.Types.{CoreDb}
use tembo.Operator.Types.AppServices.{AppService, Routing, IngressType, http, tcp}
use tembo.Operator.AppService.Objects.{
  OwnerReference, IngressRouteRoutes, IngressRouteTcpRoutes, Service, PlacementConfig, Deployment,
  PodMonitor,
}
use tembo.Operator.AppService.Routes.{dashed, generate_ingress_routes, generate_ingress_tcp_routes}
use tembo.Operator.AppService.Workload.{
  Setting, generate_service, generate_deployment, generate_podmonitor,
}

pub record AppServiceResources : Type 0 where
  pub deployment : Deployment
  pub name : String
  pub service : Option Service
  pub ingress_routes : Option (List IngressRouteRoutes)
  pub ingress_tcp_routes : Option (List IngressRouteTcpRoutes)
  pub entry_points : Option (List String)
  pub entry_points_tcp : Option (List String)
  pub podmonitor : Option PodMonitor

abbrev pub is_type : IngressType → Option IngressType → Bool
is_type http (some http) = true
is_type tcp (some tcp) = true
is_type _ _ = false

-- The entry points of the routings of a type.
unfoldable pub entry_points_of : IngressType → List Routing → List String
entry_points_of ingress_type [] = []
entry_points_of ingress_type (route ∷ routes) =
    let rest = entry_points_of ingress_type routes in
    if is_type ingress_type route.ingress_type then members route.entry_points ++ rest else rest

abbrev pub mapped {ℓ κ} : {A : Type ℓ} {B : Type κ} → (A → B) → Option A → Option B
mapped f none = none
mapped f (some x) = some (f x)

abbrev pub host : String → String → String → String
host rule coredb_name domain = concat (rule ∷ "(`" ∷ coredb_name ∷ "." ∷ domain ∷ "`)" ∷ [])

-- Without a domain there are no routes and no entry points.
unfoldable pub with_routes :
    AppService → String → String → Option String → AppServiceResources → AppServiceResources
with_routes appsvc coredb_name namespace none res = res
with_routes appsvc coredb_name namespace (some domain) res = record res {
  ingress_routes =
      generate_ingress_routes appsvc res.name namespace (host "Host" coredb_name domain)
        coredb_name;
  ingress_tcp_routes =
      generate_ingress_tcp_routes appsvc res.name namespace (host "HostSNI" coredb_name domain)
        coredb_name;
  entry_points = mapped (entry_points_of http) appsvc.routing;
  entry_points_tcp = mapped (entry_points_of tcp) appsvc.routing;
}

unfoldable pub generate_resource :
    Setting
    → AppService
    → String
    → String
    → OwnerReference
    → BTreeMap String
    → Option PlacementConfig
    → Option AppServiceResources
generate_resource setting appsvc coredb_name namespace oref annotations placement =
    let resource_name = dashed coredb_name appsvc.name in
    let service =
      mapped
        (λ _. generate_service setting appsvc coredb_name resource_name namespace oref annotations)
        appsvc.routing in
    mapped
      (λ deployment. with_routes appsvc coredb_name namespace setting.basedomain (record {
        deployment = deployment;
        name = resource_name;
        service = service;
        ingress_routes = none;
        ingress_tcp_routes = none;
        entry_points = none;
        entry_points_tcp = none;
        podmonitor = generate_podmonitor appsvc resource_name namespace annotations;
      }))
      (generate_deployment setting appsvc coredb_name resource_name namespace oref annotations
        placement)

abbrev pub renamed : String → String
renamed key = if key == "tembo.io/org_id" then "tembo.io/organization_id" else key

-- `map` on the keys and `collect` into a map: a later entry takes the place of an earlier one.
unfoldable pub collected : (String → String) → BTreeMap String → BTreeMap String → BTreeMap String
collected rename [] m = m
collected rename ((key, v) ∷ annotations) m =
    collected rename annotations (BTreeMap.insert (rename key) v m)

unfoldable pub generate_appsvc_annotations : CoreDb → BTreeMap String
generate_appsvc_annotations cdb = collected renamed (members cdb.annotations) []
