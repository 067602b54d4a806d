-- ===== src/Operator/AppService/Workload.antt =====
-- The service, the deployment and the pod monitor of one application
-- (tembo-operator/src/app_service/manager.rs). What the operator's process and the standard library
-- give is in `Setting`: `distinct` stands for the members of a `HashSet` in the order of its
-- iteration.
use Prim.Native.String
use tembo.Prelude.{
  ℕ, String, Bool, true, ◌&&◌, Option, none, some, List, [], ◌∷◌, ◌++◌, map, is_none, members,
  if◌then◌else◌,
}
use tembo.Prelude.Int.{show, as_i32}
use tembo.Prelude.BTreeMap
use tembo.Prelude.BTreeMap.{BTreeMap}
use tembo.Operator.Types.AppServices.{
  AppService, Probe, Probes, Routing, Volume, secret_volume, VolumeMount, mount_at, component_name,
}
use tembo.Operator.AppService.EnvVars.{EnvVarManager}
use tembo.Operator.AppService.Environment.{env_vars, forwarded_env_vars}
use tembo.Operator.AppService.Objects.{
  OwnerReference, Metadata, app_labels, Service, ServicePort, HttpProbe, PlacementConfig, Affinity,
  PodSpec, Deployment, PodMonitor,
}

pub record Setting : Type 0 where
  -- The variables of the operator's process; `none` is one that is not Unicode.
  pub vars : List (Option (String × String))
  -- Whether `USE_SHARED_CA` is set, and what `DATA_PLANE_BASEDOMAIN` is.
  pub use_shared_ca : Bool
  pub basedomain : Option String
  pub distinct : List ℕ → List ℕ

abbrev pub port_name : ℕ → String
port_name p = String.◌++◌ "app-" (show p)

-- The ports of the routings, each once; those of a container get the protocol TCP besides.
unfoldable pub ports_of : Setting → AppService → Option (List ServicePort)
ports_of setting appsvc = elim appsvc.routing [
  | none ↦ none
  | some routing ↦ some (
      map (λ p. record { port = p; name = port_name p })
        (setting.distinct (map (λ (r : Routing). r.port) routing)))
]

abbrev pub app_metadata : String → String → String → OwnerReference → BTreeMap String → Metadata
app_metadata coredb_name resource_name namespace oref annotations = record {
  name = resource_name;
  namespace = namespace;
  owner_references = some (oref ∷ []);
  labels = app_labels coredb_name resource_name;
  annotations = some annotations;
}

unfoldable pub generate_service :
    Setting → AppService → String → String → String → OwnerReference → BTreeMap String → Service
generate_service setting appsvc coredb_name resource_name namespace oref annotations = record {
  metadata = app_metadata coredb_name resource_name namespace oref annotations;
  ports = ports_of setting appsvc;
  selector = app_labels coredb_name resource_name;
}

abbrev pub http_probe : Probe → HttpProbe
http_probe probe = record {
  path = probe.path;
  port = probe.port;
  initial_delay_seconds = as_i32 probe.initial_delay_seconds;
}

abbrev pub readiness_of : Option Probes → Option HttpProbe
readiness_of none = none
readiness_of (some probes) = some (http_probe probes.readiness)

abbrev pub liveness_of : Option Probes → Option HttpProbe
liveness_of none = none
liveness_of (some probes) = some (http_probe probes.liveness)

unfoldable pub volumes_of : Setting → AppService → String → List Volume
volumes_of setting appsvc coredb_name =
    (if setting.use_shared_ca
      then secret_volume "tembo-certs" (String.◌++◌ coredb_name "-server1") ∷ []
      else [])
    ++ elim appsvc.storage [ none ↦ [] | some storage ↦ members storage.volumes ]

unfoldable pub mounts_of : Setting → AppService → List VolumeMount
mounts_of setting appsvc =
    (if setting.use_shared_ca then mount_at "tembo-certs" "/tembo/certs" true ∷ [] else [])
    ++ elim appsvc.storage [ none ↦ [] | some storage ↦ members storage.volume_mounts ]

unfoldable pub combine_affinity_items : PlacementConfig → Option Affinity
combine_affinity_items p =
    if is_none p.node_affinity && (is_none p.pod_affinity && is_none p.pod_anti_affinity)
    then none
    else some (record {
      node_affinity = p.node_affinity;
      pod_affinity = p.pod_affinity;
      pod_anti_affinity = p.pod_anti_affinity;
    })

abbrev pub and_then {ℓ κ} : {A : Type ℓ} {B : Type κ} → (A → Option B) → Option A → Option B
and_then f none = none
and_then f (some x) = f x

unfoldable pub pod_spec :
    Setting → AppService → String → Option PlacementConfig → EnvVarManager → PodSpec
unfolding ports_of
pod_spec setting appsvc coredb_name placement manager = record {
  affinity = and_then combine_affinity_items placement;
  container = record {
    args = appsvc.args;
    command = appsvc.command;
    env = manager.vars;
    image = appsvc.image;
    name = appsvc.name;
    ports = ports_of setting appsvc;
    resources = appsvc.resources;
    readiness_probe = readiness_of appsvc.probes;
    liveness_probe = liveness_of appsvc.probes;
    volume_mounts = mounts_of setting appsvc;
  };
  node_selector = and_then (λ p. p.node_selector) placement;
  tolerations = and_then (λ p. some p.tolerations) placement;
  topology_spread_constraints = and_then (λ p. p.topology_spread_constraints) placement;
  volumes = volumes_of setting appsvc coredb_name;
  fs_group = and_then (λ _. some 65534) appsvc.storage;
}

-- `none` stands for a panic: on an index of the environment that is out of range, or on a variable
-- of the process that is not Unicode.
unfoldable pub generate_deployment :
    Setting
    → AppService
    → String
    → String
    → String
    → OwnerReference
    → BTreeMap String
    → Option PlacementConfig
    → Option Deployment
unfolding pod_spec
generate_deployment setting appsvc coredb_name resource_name namespace oref annotations placement =
    elim (and_then (λ forwarded. env_vars forwarded appsvc coredb_name namespace annotations)
      (forwarded_env_vars setting.vars)) [
        | none ↦ none
        | some manager ↦ some (record {
          metadata = app_metadata coredb_name resource_name namespace oref annotations;
          match_labels = app_labels coredb_name resource_name;
          pod = pod_spec setting appsvc coredb_name placement manager;
        })
      ]

unfoldable pub generate_podmonitor :
    AppService → String → String → BTreeMap String → Option PodMonitor
generate_podmonitor appsvc resource_name namespace annotations = elim appsvc.metrics [
  | none ↦ none
  | some metrics ↦ some (record {
    metadata = record {
      name = resource_name;
      namespace = namespace;
      owner_references = none;
      labels =
          BTreeMap.insert "coredb.io/name" namespace
            (BTreeMap.insert "component" component_name (BTreeMap.insert "app" resource_name []));
      annotations = some annotations;
    };
    path = metrics.path;
    port = port_name metrics.port;
    match_labels = BTreeMap.insert "app" resource_name [];
  })
]
