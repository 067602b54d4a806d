-- ===== src/Operator/AppService/Reconcile.antt =====
-- The reconciliation of an instance's applications (`apply_resources` and `reconcile_app_services` of
-- tembo-operator/src/app_service/manager.rs).
pub mod Settled
pub mod Reported
pub mod Kept
use tembo.Prelude.{
  String, Bool, false, true, Option, none, some, List, [], ◌∷◌, ◌++◌, map, members, cons_to,
  unwrap_or, if◌then◌else◌,
}
use tembo.Prelude.Result.{Result, ok, err, ok_or}
use tembo.Prelude.Trace.{Trace, lift, ◌>>=◌, ◌>>◌}
use tembo.Prelude.BTreeMap.{BTreeMap}
use tembo.Operator.Types.{CoreDb}
use tembo.Operator.Types.AppServices.{AppService, Middleware}
use tembo.Operator.Api.{Action, requeue, KubeError, name_any}
use tembo.Operator.AppService.Objects.{
  OwnerReference, PlacementConfig, PodMonitor, Deployment, Service, IngressRouteRoutes,
  IngressRouteTcpRoutes,
}
use tembo.Operator.AppService.Routes.{dashed}
use tembo.Operator.AppService.Workload.{Setting}
use tembo.Operator.AppService.Resources.{
  AppServiceResources, generate_resource, generate_appsvc_annotations,
}
use tembo.Operator.AppService.Calls.{
  read_deployments, read_services, read_service, Call, World, Attempts, nothing, ◌also◌, attempt,
  ignored, each, noted, to_delete, patch_deployment, patch_service, patch_pod_monitor,
  delete_deployment, delete_service, delete_pod_monitor,
}
use tembo.Operator.AppService.Ingress.{reconcile_ingress, reconcile_ingress_tcp}
use tembo.Operator.AppService.Secret.{
  SecretError, kube, missing_secret, unwrapped, prepare_apps_connection_secret,
}

-- The service becomes the owner of the pod monitor, where it can be read.
abbrev pub owned : String → Result KubeError (Option String) → PodMonitor → PodMonitor
owned name (err _) pmon = pmon
owned name (ok uid) pmon = record pmon {
  metadata = record pmon.metadata {
    owner_references = some (
        record {
          api_version = "v1";
          kind = "Service";
          name = name;
          uid = unwrap_or "" uid;
          controller = some true;
          block_owner_deletion = some true;
        }
        ∷ []);
  };
}

unfoldable pub apply_podmonitor : World → String → Option PodMonitor → Attempts
apply_podmonitor world name none = ignored (delete_pod_monitor name)
apply_podmonitor world name (some pmon) =
    ignored (read_service name)
    also attempt world (patch_pod_monitor name (owned name (world.get_service_uid name) pmon))

unfoldable pub apply_service : World → String → Option Service → Option PodMonitor → Attempts
unfolding apply_podmonitor
apply_service world name none podmonitor = nothing
apply_service world name (some service) podmonitor =
    attempt world (patch_service name service) also apply_podmonitor world name podmonitor

unfoldable pub apply_resource : World → AppServiceResources → Attempts
unfolding apply_service
apply_resource world res =
    attempt world (patch_deployment res.name res.deployment)
    also apply_service world res.name res.service res.podmonitor

unfoldable pub apply_resources : World → List AppServiceResources → Attempts
unfolding each
apply_resources world = each (apply_resource world)

-- `filter_map` of the names.
unfoldable pub present : List (Option String) → List String
present [] = []
present (none ∷ found) = present found
present (some name ∷ found) = name ∷ present found

-- A listing that fails is taken for an empty one.
abbrev pub listed : Result KubeError (List (Option String)) → List String
listed (err _) = []
listed (ok found) = present found

-- What is there and not desired goes.
unfoldable pub reap : World → (String → Call) → List String → List String → Attempts
unfolding each
reap world delete desired actual =
    each (λ d. attempt world (delete d)) (members (to_delete desired actual))

unfoldable pub desired_deployments : String → List AppService → List String
desired_deployments coredb_name [] = []
desired_deployments coredb_name (a ∷ appsvcs) =
    dashed coredb_name a.name ∷ desired_deployments coredb_name appsvcs

unfoldable pub desired_services : String → List AppService → List String
desired_services coredb_name [] = []
desired_services coredb_name (a ∷ appsvcs) =
    let rest = desired_services coredb_name appsvcs in
    elim a.routing [ none ↦ rest | some _ ↦ dashed coredb_name a.name ∷ rest ]

unfoldable pub generate_resources :
    Setting
    → List AppService
    → String
    → String
    → OwnerReference
    → BTreeMap String
    → Option PlacementConfig
    → Option (List AppServiceResources)
generate_resources setting [] coredb_name namespace oref annotations placement = some []
generate_resources setting (a ∷ appsvcs) coredb_name namespace oref annotations placement =
    let rest =
      generate_resources setting appsvcs coredb_name namespace oref annotations placement in
    elim (generate_resource setting a coredb_name namespace oref annotations placement) [
      | none ↦ none
      | some res ↦ cons_to res rest
    ]

-- The members of the parts that there are.
unfoldable pub flattened {ℓ κ} : {A : Type ℓ} {B : Type κ} → (A → Option (List B)) → List A → List B
flattened part [] = []
flattened part (x ∷ xs) = members (part x) ++ flattened part xs

-- Only with a domain; the routes of tcp once for each application.
unfoldable pub apply_ingress :
    World
    → Option String
    → String
    → String
    → OwnerReference
    → List AppService
    → List AppServiceResources
    → Attempts
unfolding each
apply_ingress world none coredb_name ns oref appsvcs resources = nothing
apply_ingress world (some domain) coredb_name ns oref appsvcs resources =
    noted (
      reconcile_ingress world coredb_name ns oref
        (flattened (λ (r : AppServiceResources). r.ingress_routes) resources)
        (flattened (λ (a : AppService). a.middlewares) appsvcs)
        (flattened (λ (r : AppServiceResources). r.entry_points) resources))
    also each
        (λ (a : AppService). noted (
          reconcile_ingress_tcp world coredb_name ns oref
            (flattened (λ (r : AppServiceResources). r.ingress_tcp_routes) resources) []
            (flattened (λ (r : AppServiceResources). r.entry_points_tcp) resources) a.name))
        appsvcs

pub data Outcome : Type 0 where
  returned : Action → Outcome
  panicked : Outcome

abbrev pub or_300 : Trace Call SecretError (Unit {0}) → Trace Call Outcome (Unit {0})
or_300 (asked, err unwrapped) = (asked, err panicked)
or_300 (asked, err _) = (asked, err (returned (requeue 300)))
or_300 (asked, ok _) = (asked, ok tt)

-- What has been made is reported as an error where anything has failed.
abbrev pub reported : Attempts → Trace Call Outcome (Unit {0})
reported (asked, none) = (asked, err panicked)
reported (asked, some has_errors) =
    (asked, if has_errors then err (returned (requeue 300)) else ok tt)

unfoldable pub reap_all : World → String → List AppService → Attempts
unfolding reap
reap_all world coredb_name appsvcs =
    attempt world (read_deployments coredb_name)
    also (attempt world (read_services coredb_name)
        also (reap world delete_deployment (desired_deployments coredb_name appsvcs)
              (listed (world.list_deployments coredb_name))
            also reap world delete_service (desired_services coredb_name appsvcs)
                (listed (world.list_services coredb_name))))

abbrev pub applied :
    World
    → Setting
    → String
    → String
    → OwnerReference
    → List AppService
    → Option (List AppServiceResources)
    → Trace Call Outcome (Unit {0})
applied world setting coredb_name ns oref appsvcs none =
    ((reap_all world coredb_name appsvcs).0, err panicked)
applied world setting coredb_name ns oref appsvcs (some resources) = reported (
    reap_all world coredb_name appsvcs
    also (apply_resources world resources
        also apply_ingress world setting.basedomain coredb_name ns oref appsvcs resources))

unfoldable pub reconcile_app_services :
    World → Setting → CoreDb → Option PlacementConfig → Trace Call Outcome (Unit {0})
reconcile_app_services world setting cdb placement = do
  ns ← lift (ok_or panicked cdb.namespace)
  oref ← lift (ok_or panicked (world.controller_owner_ref cdb))
  or_300 (prepare_apps_connection_secret world cdb)
  applied world setting (name_any cdb) ns oref (members cdb.spec.app_services) (
      generate_resources setting (members cdb.spec.app_services) (name_any cdb) ns oref
        (generate_appsvc_annotations cdb) placement)
