-- ===== src/Operator/Cnpg/Fencing.antt =====
-- Which pods of an instance are fenced (tembo-operator/src/cloudnativepg/cnpg.rs).
use Prim.Native.String
use tembo.Prelude.{
  ℕ, zero, suc, ◌-◌, String, Bool, true, false, ◌&&◌, ◌||◌, Option, none, some, List, [], ◌∷◌, ◌++◌,
  ◌==◌, ltb, any, retain, is_none, is_some, unwrap_or, if◌then◌else◌,
}
use tembo.Prelude.Int.{show}
use tembo.Prelude.Result.{Result, ok, err, ◌>>=◌, ◌>>◌}
use tembo.Prelude.BTreeMap.{BTreeMap, get}
use tembo.Operator.Types.{CoreDb, CoreDbStatus}
use tembo.Operator.Api.{Action, requeue, KubeError, BackupResource, World, name_any}
use tembo.Operator.Api.ClusterTypes.{Cluster}
use tembo.Operator.Patches.{or_requeue}
use tembo.Operator.Extensions.Trunk.{find_trunk_installs_to_pod}
use tembo.Operator.Controller.Pods.{
  Pod, PodCondition, Pods, primary_pod_cnpg_ready_or_not, namespace_or_requeue,
}
use tembo.Operator.Cnpg.Build.{Environment}

-- What is answered, with serde_json's reading and writing of a list of texts.
pub record Answers : Type 0 where
  pub world : World
  pub pods : Pods
  pub env : Environment
  pub list_immediate_backups : (namespace name : String) → Result KubeError (List BackupResource)
  pub from_json : String → Option (List String)
  pub to_json : List String → String
  -- `ls $(pg_config --pkglibdir)` in a pod.
  pub exec : (pod_name : String) → Result KubeError (Option String)
  pub basedomain : Option String

abbrev pub pod_of : String → ℕ → String
pod_of base_name node = String.◌++◌ base_name (String.◌++◌ "-" (show node))

-- `for i in 1..=count`, from a node on.
unfoldable pub pods_after : String → ℕ → ℕ → List String
unfolding show
pods_after base_name node zero = []
pods_after base_name node (suc count) =
    pod_of base_name (suc node) ∷ pods_after base_name (suc node) count

unfoldable pub calculate_pods_to_fence : ℕ → ℕ → String → List String
unfolding pods_after
calculate_pods_to_fence latest_generated_node diff_instances base_name =
    pods_after base_name latest_generated_node diff_instances

abbrev pub extend_with_fenced_pods : List String → Option (List String) → List String
extend_with_fenced_pods pod_names none = pod_names
extend_with_fenced_pods pod_names (some fenced_pods) = pod_names ++ fenced_pods

abbrev pub is_active : Option String → Bool
is_active none = false
is_active (some phase) = phase == "running" || (phase == "pending" || phase == "completed")

abbrev pub is_active_backup : BackupResource → Bool
is_active_backup found = elim found.status [ none ↦ false | some status ↦ is_active status.phase ]

unfoldable pub is_restore_backup_running_pending_completed : Answers → CoreDb → Result Action Bool
is_restore_backup_running_pending_completed answers cdb = do
  namespace ← namespace_or_requeue cdb
  backups ← or_requeue 300 (answers.list_immediate_backups namespace (name_any cdb))
  ok (any is_active_backup backups)

unfoldable pub get_instance_replicas : Answers → CoreDb → Result Action ℕ
get_instance_replicas answers cdb = do
  namespace ← namespace_or_requeue cdb
  found ← or_requeue 30 (answers.world.get_cluster namespace (name_any cdb))
  ok found.spec.instances

abbrev pub node_of : Cluster → Option ℕ
node_of found = elim found.status [ none ↦ none | some status ↦ status.latest_generated_node ]

abbrev pub node_or_wait : Result KubeError Cluster → Result Action (Option ℕ)
node_or_wait (err e) = ok none
node_or_wait (ok found) = elim (node_of found) [
  | none ↦ err (requeue 30)
  | some node ↦ ok (some node)
]

unfoldable pub get_latest_generated_node : Answers → CoreDb → Result Action (Option ℕ)
get_latest_generated_node answers cdb = do
  namespace ← namespace_or_requeue cdb
  node_or_wait (answers.world.get_cluster namespace (name_any cdb))

abbrev pub is_initialized : PodCondition → Bool
is_initialized condition = condition.kind == "Initialized" && condition.status == "True"

abbrev pub conditions_or_none : Pod → Option (List PodCondition)
conditions_or_none pod = elim pod.status [ none ↦ none | some status ↦ status.conditions ]

abbrev pub initialized_of : Result KubeError Pod → Result Action Bool
initialized_of (err e) = ok false
initialized_of (ok pod) = elim (conditions_or_none pod) [
  | none ↦ err (requeue 10)
  | some conditions ↦ ok (any is_initialized conditions)
]

unfoldable pub fenced_pods_initialized : Answers → CoreDb → String → Result Action Bool
fenced_pods_initialized answers cdb pod_name = do
  namespace ← namespace_or_requeue cdb
  initialized_of (answers.pods.get_pod namespace pod_name)

abbrev pub fenced_instances_key : String
fenced_instances_key = "cnpg.io/fencedInstances"

-- None where the annotation cannot be read.
unfoldable pub get_fenced_instances_from_annotations :
    Answers → BTreeMap String → Result Action (Option (List String))
unfolding get
get_fenced_instances_from_annotations answers annotations =
    elim (get fenced_instances_key annotations) [
      | none ↦ ok none
      | some text ↦ elim (answers.from_json text) [
        | none ↦ err (requeue 30)
        | some names ↦ ok (some names)
      ]
    ]

abbrev pub require_initialized : Bool → Result Action (Unit {0})
require_initialized true = ok tt
require_initialized false = err (requeue 10)

-- The other pods, each of which must be initialized.
unfoldable pub check_initialized :
    Answers → CoreDb → String → List String → Result Action (Unit {0})
check_initialized answers cdb primary_pod_name [] = ok tt
check_initialized answers cdb primary_pod_name (pod_name ∷ later) =
    (if pod_name == primary_pod_name
      then ok tt
      else fenced_pods_initialized answers cdb pod_name >>= require_initialized)
    >>= λ _. check_initialized answers cdb primary_pod_name later

abbrev pub fenced_when_ready : Answers → CoreDb → List String → Result Action (Option (List String))
fenced_when_ready answers cdb names = do
  primary ← primary_pod_cnpg_ready_or_not answers.pods cdb
  is_primary_initialized ← fenced_pods_initialized answers cdb (unwrap_or "" primary.name)
  if is_primary_initialized
      then ok (some names)
      else check_initialized answers cdb (unwrap_or "" primary.name) names >> ok (some names)

abbrev pub fenced_of :
    Answers → CoreDb → Option (List String) → Result Action (Option (List String))
fenced_of answers cdb none = ok none
fenced_of answers cdb (some names) = fenced_when_ready answers cdb names

abbrev pub fenced_in :
    Answers → CoreDb → Option (BTreeMap String) → Result Action (Option (List String))
fenced_in answers cdb none = ok none
fenced_in answers cdb (some annotations) =
    get_fenced_instances_from_annotations answers annotations >>= fenced_of answers cdb

unfoldable pub get_fenced_pods : Answers → CoreDb → Result Action (Option (List String))
unfolding fenced_pods_initialized check_initialized get_fenced_instances_from_annotations
get_fenced_pods answers cdb = do
  namespace ← namespace_or_requeue cdb
  found ← or_requeue 300 (answers.world.get_cluster namespace (name_any cdb))
  fenced_in answers cdb found.annotations

abbrev pub is_fresh : Option CoreDbStatus → Bool
is_fresh none = true
is_fresh (some status) =
    is_none status.first_recoverability_time && is_none status.pg_postmaster_start_time

abbrev pub has_installs : CoreDb → String → Bool
has_installs cdb pod_name = elim (find_trunk_installs_to_pod cdb pod_name) [
  | [] ↦ false
  | install ∷ installs ↦ true
]

abbrev pub scaled_up : CoreDb → ℕ → Result Action (Option ℕ) → Result Action (List String)
scaled_up cdb cluster_replica (ok (some node)) =
    ok (calculate_pods_to_fence node (cdb.spec.replicas - cluster_replica) (name_any cdb))
scaled_up cdb cluster_replica (ok none) = err (requeue 30)
scaled_up cdb cluster_replica (err action) = err (requeue 300)

abbrev pub fence_running : Answers → CoreDb → Result Action ℕ → Result Action (List String)
fence_running answers cdb (ok cluster_replica) =
    if ltb cluster_replica cdb.spec.replicas
    then scaled_up cdb cluster_replica (get_latest_generated_node answers cdb)
    else (do fenced_pods ← get_fenced_pods answers cdb; ok (extend_with_fenced_pods [] fenced_pods))
fence_running answers cdb (err action) = ok (pods_after (name_any cdb) 1 (cdb.spec.replicas - 1))

abbrev pub or_false : Result Action Bool → Bool
or_false (ok b) = b
or_false (err action) = false

unfoldable pub pods_to_fence : Answers → CoreDb → Result Action (List String)
unfolding is_restore_backup_running_pending_completed get_instance_replicas
    get_latest_generated_node get_fenced_pods calculate_pods_to_fence find_trunk_installs_to_pod
    retain pods_after
pods_to_fence answers cdb =
    if is_some cdb.spec.restore
      && or_false (is_restore_backup_running_pending_completed answers cdb)
    then ok []
    else if is_some cdb.spec.restore && is_fresh cdb.status
    then ok (retain (has_installs cdb) (pods_after (name_any cdb) 0 cdb.spec.replicas))
    else fence_running answers cdb (get_instance_replicas answers cdb)
