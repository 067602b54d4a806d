-- ===== src/Operator/AppService/Objects.antt =====
-- The resources that are made for the applications of an instance
-- (tembo-operator/src/app_service/manager.rs and ingress.rs). Of the types of `k8s_openapi`, of
-- Traefik and of Prometheus there are the fields that the program sets to more than a constant.
use tembo.Prelude.{ℕ, String, Bool, Option, List, []}
use tembo.Prelude.BTreeMap
use tembo.Prelude.BTreeMap.{BTreeMap}
use tembo.Prelude.Int.{ℤ}
use tembo.Operator.Types.AppServices.{
  component_name, EnvVar, Volume, VolumeMount, ResourceRequirements,
}

pub record OwnerReference : Type 0 where
  pub api_version : String
  pub kind : String
  pub name : String
  pub uid : String
  pub controller : Option Bool
  pub block_owner_deletion : Option Bool

pub record Metadata : Type 0 where
  pub name : String
  pub namespace : String
  pub owner_references : Option (List OwnerReference)
  pub labels : BTreeMap String
  pub annotations : Option (BTreeMap String)

-- The labels of the routes and the middlewares of an instance.
abbrev pub labels_of : String → BTreeMap String
labels_of coredb_name =
    BTreeMap.insert "coredb.io/name" coredb_name (BTreeMap.insert "component" component_name [])

-- Those of a resource of one application.
abbrev pub app_labels : (coredb_name resource_name : String) → BTreeMap String
app_labels coredb_name resource_name =
    BTreeMap.insert "coredb.io/name" coredb_name
      (BTreeMap.insert "component" component_name (BTreeMap.insert "app" resource_name []))

pub record RouteMiddleware : Type 0 where
  pub name : String
  pub namespace : Option String

pub record RouteService : Type 0 where
  pub name : String
  pub port : ℕ

pub record IngressRouteRoutes : Type 0 where
  pub matcher : String
  pub services : Option (List RouteService)
  pub middlewares : Option (List RouteMiddleware)

pub record IngressRouteTcpRoutes : Type 0 where
  pub matcher : String
  pub services : Option (List RouteService)
  pub middlewares : Option (List RouteMiddleware)

pub record IngressRoute : Type 0 where
  pub metadata : Metadata
  pub entry_points : List String
  pub routes : List IngressRouteRoutes

pub record IngressRouteTcp : Type 0 where
  pub metadata : Metadata
  pub entry_points : List String
  pub routes : List IngressRouteTcpRoutes
  pub passthrough : Bool

-- `MiddlewareSpec`: the one of its fields that is set.
pub data MiddlewareSpec : Type 0 where
  headers : (custom_request_headers : BTreeMap String) → MiddlewareSpec
  prefixes : List String → MiddlewareSpec
  regex : (regex replacement : String) → MiddlewareSpec

pub record TraefikMiddleware : Type 0 where
  pub metadata : Metadata
  pub spec : MiddlewareSpec

pub record MiddleWareWrapper : Type 0 where
  pub name : String
  pub mw : TraefikMiddleware

pub record ServicePort : Type 0 where
  pub port : ℕ
  pub name : String

pub record Service : Type 0 where
  pub metadata : Metadata
  pub ports : Option (List ServicePort)
  pub selector : BTreeMap String

pub record HttpProbe : Type 0 where
  pub path : String
  pub port : ℤ
  pub initial_delay_seconds : ℤ

-- What `PlacementConfig` gives for a pod, as the texts of the JSON values.
pub record PlacementConfig : Type 0 where
  pub node_selector : Option (BTreeMap String)
  pub tolerations : List String
  pub node_affinity : Option String
  pub pod_affinity : Option String
  pub pod_anti_affinity : Option String
  pub topology_spread_constraints : Option (List String)

pub record Affinity : Type 0 where
  pub node_affinity : Option String
  pub pod_affinity : Option String
  pub pod_anti_affinity : Option String

pub record Container : Type 0 where
  pub args : Option (List String)
  pub command : Option (List String)
  pub env : List EnvVar
  pub image : String
  pub name : String
  pub ports : Option (List ServicePort)
  pub resources : ResourceRequirements
  pub readiness_probe : Option HttpProbe
  pub liveness_probe : Option HttpProbe
  pub volume_mounts : List VolumeMount

pub record PodSpec : Type 0 where
  pub affinity : Option Affinity
  pub container : Container
  pub node_selector : Option (BTreeMap String)
  pub tolerations : Option (List String)
  pub topology_spread_constraints : Option (List String)
  pub volumes : List Volume
  pub fs_group : Option ℕ

pub record Deployment : Type 0 where
  pub metadata : Metadata
  pub match_labels : BTreeMap String
  pub pod : PodSpec

pub record PodMonitor : Type 0 where
  pub metadata : Metadata
  pub path : String
  pub port : String
  pub match_labels : BTreeMap String
