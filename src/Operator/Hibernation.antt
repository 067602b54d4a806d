-- ===== src/Operator/Hibernation.antt =====
-- Stopping and starting an instance (tembo-operator/src/cloudnativepg/hibernate.rs, ingress.rs and
-- the reads of cloudnativepg/cnpg.rs).
pub mod Stopped
pub mod Lacks
pub mod Calls
use Prim.Native.String
use tembo.Prelude.{
  ℕ, String, Bool, true, false, not, ◌&&◌, Option, none, some, List, [], ◌∷◌, find, unwrap_or,
  nat_eq, ◌==◌, if◌then◌else◌,
}
use tembo.Prelude.Result.{Result, ok, err, ok_or}
use tembo.Prelude.Trace.{pure, fail, call, lift, tell, catch, for_each, ◌>>=◌, ◌>>◌}
use tembo.Operator.Types.{CoreDb, CoreDbStatus, default_status}
use tembo.Operator.Api.{
  Action, requeue, KubeError, api, other, ScheduledBackup, Pooler, DeploymentSpec, Deployment, Kind,
  deployment, pod_monitor, ingress_route, ingress_route_tcp, Patch, suspend, instances, replicas,
  hibernation, status, Effect, delete, patch, World, Run, name_any, requeue_normal_with_jitter,
}
use tembo.Operator.Api.ClusterTypes.{
  ClusterStatusConditionsStatus, is_true, ClusterStatusConditions, ClusterStatus, Cluster,
}
use tembo.Operator.Patches.{
  or_requeue, namespace_of, patch_cluster_merge, patch_scheduled_backup_merge, patch_pooler_merge,
  pooler_name, patch_cdb_status_merge, get_pooler_instances, annotation, removed_stalled_backups,
}

abbrev pub found {a} : {A : Type a} → Result KubeError A → Option A
found (ok x) = some x
found (err e) = none

-- Any error of the API is taken for the absence of the resource.
unfoldable pub get_cluster : World → CoreDb → Option Cluster
get_cluster world cdb = elim cdb.namespace [
  | none ↦ none
  | some namespace ↦ found (world.get_cluster namespace (name_any cdb))
]

unfoldable pub get_pooler : World → CoreDb → Option Pooler
unfolding pooler_name
get_pooler world cdb = elim cdb.namespace [
  | none ↦ none
  | some namespace ↦ found (world.get_pooler namespace (pooler_name cdb))
]

unfoldable pub get_scheduled_backups : World → CoreDb → List ScheduledBackup
get_scheduled_backups world cdb = elim cdb.namespace [
  | none ↦ []
  | some namespace ↦ unwrap_or [] (found (world.list_scheduled_backups namespace))
]

abbrev pub is_hibernation : ClusterStatusConditions → Bool
is_hibernation condition = condition.kind == "cnpg.io/hibernation"

abbrev pub holds : ClusterStatusConditionsStatus → Bool
holds is_true = true
holds _ = false

unfoldable pub get_hibernation_condition : Cluster → Option ClusterStatusConditions
unfolding find
get_hibernation_condition cluster = elim cluster.status [
  | none ↦ none
  | some reported ↦ find is_hibernation (unwrap_or [] reported.conditions)
]

unfoldable pub is_cluster_hibernated : Cluster → Bool
unfolding get_hibernation_condition
is_cluster_hibernated cluster = elim (get_hibernation_condition cluster) [
  | none ↦ false
  | some condition ↦ holds condition.status
]

-- A deletion for which an absent resource is no error.
abbrev pub after_delete : World → Result KubeError (Unit {0}) → Result Action (Unit {0})
after_delete world (ok _) = ok tt
after_delete world (err (api code)) =
    if nat_eq code 404 then ok tt else err (requeue_normal_with_jitter world)
after_delete world (err (other _)) = err (requeue_normal_with_jitter world)

unfoldable pub delete_pod_monitor : World → String → String → Run (Unit {0})
delete_pod_monitor world namespace name =
    let asked = delete pod_monitor namespace name in
    call asked (after_delete world (world.answer asked))

abbrev pub or_requeue_normal {a} : {A : Type a} → World → Result KubeError A → Result Action A
or_requeue_normal world (ok x) = ok x
or_requeue_normal world (err e) = err (requeue_normal_with_jitter world)

abbrev pub replicas_of : CoreDb → ℕ
replicas_of cdb = if cdb.spec.stop then 0 else 1

abbrev pub patch_replicas : World → String → String → ℕ → Run (Unit {0})
patch_replicas world namespace name count =
    let asked = patch deployment namespace name (replicas count) in
    call asked (or_requeue_normal world (world.answer asked))

abbrev pub has_replicas : ℕ → Option ℕ → Bool
has_replicas count none = false
has_replicas count (some current) = nat_eq count current

abbrev pub scale : World → String → ℕ → String → Run (Unit {0})
scale world namespace count name = do
  if nat_eq count 0 then delete_pod_monitor world namespace name else pure tt
  patch_replicas world namespace name count

abbrev pub scale_unless :
    World → String → ℕ → Option String → Option DeploymentSpec → Run (Unit {0})
scale_unless world namespace count (some name) (some spec) =
    if has_replicas count spec.replicas then pure tt else scale world namespace count name
scale_unless world namespace count _ _ = pure tt

unfoldable pub patch_deployment : World → String → ℕ → Deployment → Run (Unit {0})
unfolding delete_pod_monitor
patch_deployment world namespace count found =
    scale_unless world namespace count found.name found.spec

unfoldable pub patch_appservice_deployments : World → String → CoreDb → Run (Unit {0})
unfolding for_each patch_deployment
patch_appservice_deployments world namespace cdb = do
  deployments ← lift (or_requeue_normal world (world.list_deployments namespace (name_any cdb)))
  for_each (patch_deployment world namespace (replicas_of cdb)) deployments

unfoldable pub cleanup_hibernated_podmonitor : World → String → CoreDb → Cluster → Run (Unit {0})
unfolding is_cluster_hibernated
cleanup_hibernated_podmonitor world namespace cdb cluster =
    if cdb.spec.stop && is_cluster_hibernated cluster
    then delete_pod_monitor world namespace (name_any cdb)
    else pure tt

-- The error of a patch is replaced by a requeue.
abbrev pub or_normal : World → Run (Unit {0}) → Run (Unit {0})
or_normal world (asked, ok x) = (asked, ok x)
or_normal world (asked, err action) = (asked, err (requeue_normal_with_jitter world))

abbrev pub to_instances : World → CoreDb → ℕ → ℕ → Run (Unit {0})
to_instances world cdb current desired =
    if nat_eq current desired
    then pure tt
    else or_normal world (patch_pooler_merge cdb (instances desired))

unfoldable pub update_pooler_instances : World → Option Pooler → CoreDb → Run (Unit {0})
update_pooler_instances world none cdb = pure tt
update_pooler_instances world (some pooler) cdb = elim (get_pooler_instances cdb) [
  | none ↦ pure tt
  | some desired ↦ to_instances world cdb (unwrap_or 1 pooler.instances) desired
]

abbrev pub same_flag : Bool → Bool → Bool
same_flag true b = b
same_flag false b = not b

unfoldable pub update_scheduled_backup : World → CoreDb → ScheduledBackup → Run (Unit {0})
update_scheduled_backup world cdb scheduled =
    if same_flag (unwrap_or false scheduled.suspend) cdb.spec.stop
    then pure tt
    else or_normal world (
        patch_scheduled_backup_merge cdb (unwrap_or (name_any cdb) scheduled.name)
          (suspend cdb.spec.stop))

unfoldable pub update_scheduled_backups : World → List ScheduledBackup → CoreDb → Run (Unit {0})
unfolding for_each update_scheduled_backup
update_scheduled_backups world scheduled cdb =
    for_each (update_scheduled_backup world cdb) scheduled

-- `delete_ingress_route` and `delete_ingress_route_tcp`, with the requeue of a failure.
unfoldable pub delete_route : World → String → Kind → String → Run (Unit {0})
delete_route world namespace kind name =
    let asked = delete kind namespace name in
    if world.exists kind namespace name
    then call asked (or_requeue 300 (world.answer asked))
    else pure tt

-- The routes of an instance that is stopped.
unfoldable pub routes_of : CoreDb → List (Kind × String)
routes_of cdb =
    (ingress_route, name_any cdb)
    ∷ (ingress_route, String.◌++◌ (name_any cdb) "-metrics")
    ∷ (ingress_route_tcp, String.◌++◌ (name_any cdb) "-ro-0")
    ∷ (ingress_route_tcp, String.◌++◌ (name_any cdb) "-rw-0")
    ∷ (ingress_route_tcp, String.◌++◌ (name_any cdb) "-pooler-0")
    ∷ (ingress_route_tcp, String.◌++◌ (name_any cdb) "-fdb-api")
    ∷ extra (unwrap_or [] cdb.spec.extra_domains_rw)
  where
    extra : List String → List (Kind × String)
    extra [] = []
    extra (_ ∷ _) =
        (ingress_route_tcp, String.◌++◌ "extra-" (String.◌++◌ (name_any cdb) "-rw")) ∷ []

unfoldable pub delete_routes : World → String → List (Kind × String) → Run (Unit {0})
unfolding for_each delete_route
delete_routes world namespace routes =
    for_each (λ (kind, name). delete_route world namespace kind name) routes

unfoldable pub remove_routes : World → String → CoreDb → Run (Unit {0})
unfolding routes_of
remove_routes world namespace cdb =
    if cdb.spec.stop then delete_routes world namespace (routes_of cdb) else pure tt

abbrev pub hibernation_value : CoreDb → String
hibernation_value cdb = if cdb.spec.stop then "on" else "off"

abbrev pub reconciliation_value : Bool → String
reconciliation_value is_stopped = if is_stopped then "disabled" else "enabled"

unfoldable pub hibernation_patch : CoreDb → Cluster → Patch
unfolding is_cluster_hibernated
hibernation_patch cdb cluster =
    hibernation (hibernation_value cdb)
      (reconciliation_value (cdb.spec.stop && is_cluster_hibernated cluster)) (not cdb.spec.stop)

abbrev pub stopped_status : CoreDb → CoreDbStatus
stopped_status cdb =
    let current = unwrap_or default_status cdb.status in
    record current { running = not cdb.spec.stop; pg_postmaster_start_time = none }

abbrev pub is_already : String → Option String → Bool
is_already value none = false
is_already value (some current) = current == value

-- What is left when the annotation was there before: stalled backups, if the instance is stopped.
unfoldable pub settled : World → CoreDb → Run (Unit {0})
settled world cdb =
    if cdb.spec.stop
    then removed_stalled_backups world cdb >> fail (requeue_normal_with_jitter world)
    else pure tt

-- What is left when the annotation is new: the status.
unfoldable pub toggled : World → String → CoreDb → Run (Unit {0})
toggled world namespace cdb = do
  patch_cdb_status_merge world namespace (name_any cdb) (status (stopped_status cdb))
  if cdb.spec.stop then fail (requeue_normal_with_jitter world) else pure tt

abbrev pub conclude : World → String → CoreDb → Cluster → Run (Unit {0})
conclude world namespace cdb cluster =
    if is_already (hibernation_value cdb) (annotation "cnpg.io/hibernation" cluster.annotations)
    then settled world cdb
    else toggled world namespace cdb

unfoldable pub hibernate : World → String → CoreDb → Cluster → Run (Unit {0})
unfolding settled toggled
hibernate world namespace cdb cluster = do
  patch_appservice_deployments world namespace cdb
  remove_routes world namespace cdb
  update_scheduled_backups world (get_scheduled_backups world cdb) cdb
  update_pooler_instances world (get_pooler world cdb) cdb
  cleanup_hibernated_podmonitor world namespace cdb cluster
  patch_cluster_merge cdb (hibernation_patch cdb cluster)
  conclude world namespace cdb cluster

unfoldable pub reconcile_cluster_hibernation : World → CoreDb → Run (Unit {0})
unfolding hibernate get_cluster
reconcile_cluster_hibernation world cdb = do
  namespace ← namespace_of cdb
  elim (get_cluster world cdb) [
    | none ↦ pure tt
    | some cluster ↦ hibernate world namespace cdb cluster
  ]
