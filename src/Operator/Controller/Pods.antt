-- ===== src/Operator/Controller/Pods.antt =====
-- The pods of an instance and their readiness (tembo-operator/src/controller.rs).
use tembo.Prelude.{
  String, Bool, true, false, not, ◌&&◌, Option, none, some, List, [], ◌∷◌, ◌++◌, ◌==◌, nat_eq, find,
  any, retain, length, if◌then◌else◌, unwrap_or,
}
use tembo.Prelude.Result.{Result, ok, err, ok_or, ◌>>=◌}
use tembo.Prelude.BTreeMap.{BTreeMap}
use tembo.Operator.Types.{CoreDb}
use tembo.Operator.Api.{Action, requeue, KubeError, name_any}
use tembo.Operator.Patches.{or_requeue}

pub record PodCondition : Type 0 where
  pub kind : String
  pub status : String

pub record ContainerStatus : Type 0 where
  pub name : String
  pub ready : Bool

pub record PodStatus : Type 0 where
  pub conditions : Option (List PodCondition)
  pub container_statuses : Option (List ContainerStatus)

pub record Pod : Type 0 where
  pub name : Option String
  pub status : Option PodStatus

-- What is answered about pods.
pub record Pods : Type 0 where
  -- `extensions_that_require_load` of trunk.rs, for a namespace.
  pub extensions_that_require_load : String → Result Action (BTreeMap String)
  -- The pods of a namespace that a label selector selects.
  pub list_primary : (namespace cluster_name : String) → Result KubeError (List Pod)
  pub list_instance_primary : (namespace cluster_name : String) → Result KubeError (List Pod)
  pub list_replicas : (namespace cluster_name : String) → Result KubeError (List Pod)
  pub get_pod : (namespace name : String) → Result KubeError Pod

abbrev pub conditions_of : Pod → List PodCondition
conditions_of pod = elim pod.status [ none ↦ [] | some status ↦ unwrap_or [] status.conditions ]

abbrev pub containers_of : Pod → List ContainerStatus
containers_of pod = elim pod.status [
  | none ↦ []
  | some status ↦ unwrap_or [] status.container_statuses
]

unfoldable pub is_pod_ready : Option Pod → Bool
unfolding find
is_pod_ready none = false
is_pod_ready (some pod) = elim (find (λ c. c.kind == "ContainersReady") (conditions_of pod)) [
  | none ↦ false
  | some condition ↦ condition.status == "True"
]

-- The first container with the name decides.
unfoldable pub is_postgres_ready : Option Pod → Bool
unfolding find
is_postgres_ready none = false
is_postgres_ready (some pod) = elim (find (λ c. c.name == "postgres") (containers_of pod)) [
  | none ↦ false
  | some container ↦ container.ready
]

abbrev pub is_ready : Pod → Bool
is_ready pod = any (λ c. c.kind == "Ready" && c.status == "True") (conditions_of pod)

abbrev pub namespace_or_requeue : CoreDb → Result Action String
namespace_or_requeue cdb = ok_or (requeue 300) cdb.namespace

abbrev pub first_pod : Bool → List Pod → Result Action Pod
first_pod wait_for_ready [] = err (requeue 5)
first_pod wait_for_ready (primary ∷ _) =
    if wait_for_ready && not (is_postgres_ready (some primary)) then err (requeue 5) else ok primary

-- The name of the cluster is the name of the instance.
unfoldable pub primary_pod_cnpg_conditional_readiness : Pods → CoreDb → Bool → Result Action Pod
unfolding is_postgres_ready
primary_pod_cnpg_conditional_readiness pods cdb wait_for_ready = do
  namespace ← namespace_or_requeue cdb
  _ ← pods.extensions_that_require_load namespace
  found ← or_requeue 300 (pods.list_primary namespace (name_any cdb))
  first_pod wait_for_ready found

abbrev pub primary_pod_cnpg : Pods → CoreDb → Result Action Pod
primary_pod_cnpg pods cdb = primary_pod_cnpg_conditional_readiness pods cdb true

abbrev pub primary_pod_cnpg_ready_or_not : Pods → CoreDb → Result Action Pod
primary_pod_cnpg_ready_or_not pods cdb = primary_pod_cnpg_conditional_readiness pods cdb false

abbrev pub is_nil : List Pod → Bool
is_nil [] = true
is_nil (_ ∷ _) = false

abbrev pub ready_among : Bool → List Pod → Result Action (List Pod)
ready_among wait_for_ready [] = err (requeue 30)
ready_among wait_for_ready (pod ∷ pods) =
    let ready_pods = retain is_ready (pod ∷ pods) in
    if wait_for_ready && is_nil ready_pods then err (requeue 30) else ok ready_pods

unfoldable pub pods_by_cluster_conditional_readiness :
    Pods → CoreDb → Bool → Result Action (List Pod)
unfolding retain
pods_by_cluster_conditional_readiness pods cdb wait_for_ready = do
  namespace ← namespace_or_requeue cdb
  _ ← pods.extensions_that_require_load namespace
  primary_pods ← or_requeue 300 (pods.list_instance_primary namespace (name_any cdb))
  replica_pods ← or_requeue 300 (pods.list_replicas namespace (name_any cdb))
  ready_among wait_for_ready (primary_pods ++ replica_pods)

abbrev pub pods_by_cluster : Pods → CoreDb → Result Action (List Pod)
pods_by_cluster pods cdb = pods_by_cluster_conditional_readiness pods cdb true

unfoldable pub check_replica_count_matches_pods : Pods → CoreDb → Result Action (Unit {0})
unfolding pods_by_cluster_conditional_readiness
check_replica_count_matches_pods pods cdb = do
  current_pods ← pods_by_cluster pods cdb
  if nat_eq (length current_pods) cdb.spec.replicas then ok tt else err (requeue 10)
