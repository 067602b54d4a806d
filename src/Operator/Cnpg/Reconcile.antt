-- ===== src/Operator/Cnpg/Reconcile.antt =====
-- The reconciliation of the cluster object (`reconcile_cnpg` of
-- tembo-operator/src/cloudnativepg/cnpg.rs, and patch_cluster of cnpg_utils.rs).
pub mod Libraries
use Prim.Native.String
use tembo.Prelude.{
  ℕ, String, Bool, true, false, ◌&&◌, Option, none, some, List, [], ◌∷◌, ◌++◌, ◌==◌, list_contains,
  map, unwrap_or, if◌then◌else◌, split_char, retain,
}
use tembo.Prelude.Result
use tembo.Prelude.Result.{Result, ok, err, ok_or}
use tembo.Prelude.Trace.{pure, fail, lift, ◌>>=◌, ◌>>◌}
use tembo.Operator.Types.{CoreDb, CoreDbStatus}
use tembo.Operator.Api.{
  Action, requeue, KubeError, cluster, service, ingress_route, Effect, patch, cluster_object,
  metrics_service, metrics_route, World, Run, name_any,
}
use tembo.Operator.Api.ClusterTypes.{Cluster}
use tembo.Operator.Patches.{
  or_requeue, namespace_of, ask, restart_and_wait_for_restart, is_image_updated,
}
use tembo.Operator.Controller.Pods.{primary_pod_cnpg_ready_or_not}
use tembo.Operator.Cnpg.Build.{suffix, cnpg_cluster_from_cdb}
use tembo.Operator.Cnpg.Fencing.{Answers, pods_to_fence}

-- `==` on lists of texts.
unfoldable pub same_texts : List String → List String → Bool
same_texts [] [] = true
same_texts (s ∷ ss) (t ∷ ts) = s == t && same_texts ss ts
same_texts _ _ = false

unfoldable pub flatten : List (List String) → List String
flatten [] = []
flatten (ss ∷ sss) = ss ++ flatten sss

abbrev pub file_of : String → String
file_of library = suffix library ".so"

-- The libraries that are among the files of a pod.
unfoldable pub installed_among : List String → List String → List String
unfolding split_char list_contains retain flatten
installed_among available_libs new_libs =
    retain (λ library. list_contains available_libs (file_of library))
      (flatten (map (split_char 44) new_libs))

abbrev pub list_libraries : Answers → CoreDb → Result Action (List String)
list_libraries answers cdb = Result.◌>>=◌ (primary_pod_cnpg_ready_or_not answers.pods cdb) (λ pod.
    Result.◌>>=◌ (or_requeue 30 (answers.exec (unwrap_or "" pod.name)))
      (λ stdout. Result.◌>>=◌ (ok_or (requeue 30) stdout) (λ output. ok (split_char 10 output))))

abbrev pub current_libraries : Result KubeError Cluster → List String
current_libraries (err e) = []
current_libraries (ok current) = unwrap_or [] current.spec.shared_preload_libraries

abbrev pub changed_libraries :
    Answers → CoreDb → List String → List String → Result Action (Option (List String))
changed_libraries answers cdb current_libs new_libs =
    if same_texts current_libs new_libs
    then ok (some new_libs)
    else Result.◌>>=◌ (list_libraries answers cdb)
        (λ available_libs. ok (some (installed_among available_libs new_libs)))

-- The libraries that the cluster is given. Those that are new must have a file in the pod, and a
-- new cluster has none.
unfoldable pub select_libraries :
    Answers
    → CoreDb
    → Result KubeError Cluster
    → Option (List String)
    → Result Action (Option (List String))
unfolding split_char same_texts installed_among
select_libraries answers cdb maybe_cluster none = ok none
select_libraries answers cdb (err e) (some new_libs) = ok none
select_libraries answers cdb (ok current) (some new_libs) =
    changed_libraries answers cdb (current_libraries (ok current)) new_libs

unfoldable pub patch_cluster : World → Cluster → CoreDb → Run (Unit {0})
patch_cluster world object cdb = do
  namespace ← namespace_of cdb
  ask world 300 (patch cluster namespace (name_any cdb) (cluster_object object))

unfoldable pub reconcile_metrics_service : World → CoreDb → Run (Unit {0})
reconcile_metrics_service world cdb = do
  namespace ← namespace_of cdb
  ask world 300
      (patch service namespace (suffix (name_any cdb) "-metrics") (metrics_service (name_any cdb)))

abbrev pub matcher_of : String → String → String
matcher_of name domain =
    suffix "Host(`" (suffix name (suffix "." (suffix domain "`) && Path(`/metrics`)")))

abbrev pub metrics_ingress : World → CoreDb → Option String → Run (Unit {0})
metrics_ingress world cdb none = pure tt
metrics_ingress world cdb (some domain) =
    let route = suffix (name_any cdb) "-metrics" in
    ask world 300 (
      patch ingress_route (unwrap_or "" cdb.namespace) route
        (metrics_route (matcher_of (name_any cdb) domain) route))

unfoldable pub reconcile_metrics_ingress_route : Answers → CoreDb → Run (Unit {0})
reconcile_metrics_ingress_route answers cdb = metrics_ingress answers.world cdb answers.basedomain

-- A restart and a new image come before the rest of the specification.
abbrev pub prepare : World → CoreDb → Result KubeError Cluster → Run (Unit {0})
prepare world cdb (err e) = pure tt
prepare world cdb (ok current) = do
  restart_and_wait_for_restart world cdb (some current)
  is_image_updated cdb (some current)

abbrev pub require_running : Option CoreDbStatus → Run (Unit {0})
require_running none = pure tt
require_running (some status) = if status.running then pure tt else fail (requeue 10)

abbrev pub with_libraries : Cluster → Option (List String) → Cluster
with_libraries object libs = record object {
  spec = record object.spec { shared_preload_libraries = libs };
}

abbrev pub apply_cluster : Answers → CoreDb → Cluster → Result KubeError Cluster → Run (Unit {0})
apply_cluster answers cdb object maybe_cluster = do
  libs ← lift (select_libraries answers cdb maybe_cluster object.spec.shared_preload_libraries)
  patch_cluster answers.world (with_libraries object libs) cdb
  reconcile_metrics_service answers.world cdb
  reconcile_metrics_ingress_route answers cdb

unfoldable pub reconcile_cnpg : Answers → CoreDb → Run (Unit {0})
unfolding pods_to_fence cnpg_cluster_from_cdb restart_and_wait_for_restart is_image_updated
    select_libraries patch_cluster reconcile_metrics_service reconcile_metrics_ingress_route
reconcile_cnpg answers cdb = do
  namespace ← namespace_of cdb
  fenced ← lift (pods_to_fence answers cdb)
  requires_load ← lift (answers.pods.extensions_that_require_load namespace)
  let object = cnpg_cluster_from_cdb answers.env cdb (some fenced) requires_load
  let maybe_cluster = answers.world.get_cluster namespace (name_any cdb)
  prepare answers.world cdb maybe_cluster
  current ← lift (or_requeue 300 (answers.world.get_coredb namespace (name_any cdb)))
  require_running current.status
  apply_cluster answers cdb object maybe_cluster
