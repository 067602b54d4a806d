-- ===== src/Operator/Api.antt =====
-- The cluster as the operator sees it: the resources it reads, the calls that change something,
-- and what is answered (tembo-operator/src/cloudnativepg, controller.rs and config.rs; kube).
-- A time is a number of nanoseconds since 1970.
pub mod ClusterTypes
use tembo.Prelude.{ltb, some, none, ℕ, ◌+◌, String, Bool, true, false, Option, List, unwrap_or}
use tembo.Prelude.Result.{Result}
use tembo.Prelude.Trace.{Trace}
use tembo.Prelude.BTreeMap.{BTreeMap}
use tembo.Operator.Api.ClusterTypes.{Cluster}
use tembo.Operator.Types.{CoreDb, CoreDbStatus}

-- `kube::runtime::controller::Action`, an interval in seconds.
pub data Action : Type 0 where
  requeue : (seconds : ℕ) → Action
  await_change : Action

-- `kube::Error`, told apart by the code of an answer of the API.
pub data KubeError : Type 0 where
  api : (code : ℕ) → KubeError
  other : (message : String) → KubeError

pub record Config : Type 0 where
  pub enable_backup : Bool
  pub enable_volume_snapshot : Bool
  pub volume_snapshot_retention_period_days : ℕ
  pub reconcile_timestamp_ttl : ℕ
  pub reconcile_ttl : ℕ

pub record ScheduledBackup : Type 0 where
  pub name : Option String
  pub suspend : Option Bool

pub record Pooler : Type 0 where
  pub instances : Option ℕ

pub data BackupMethod : Type 0 where
  barman_object_store volume_snapshot : BackupMethod

pub record BackupStatus : Type 0 where
  pub backup_name : Option String
  pub phase : Option String
  pub stopped_at : Option String

pub record BackupResource : Type 0 where
  pub name : Option String
  pub creation_timestamp : Option ℕ
  pub method : Option BackupMethod
  pub status : Option BackupStatus

pub record DeploymentSpec : Type 0 where
  pub replicas : Option ℕ

pub record Deployment : Type 0 where
  pub name : Option String
  pub spec : Option DeploymentSpec

-- The kinds of resource that are changed by name.
pub data Kind : Type 0 where
  cluster scheduled_backup pooler backup snapshot deployment pod_monitor service : Kind
  ingress_route ingress_route_tcp coredb : Kind

-- What a patch sets.
pub data Patch : Type 0 where
  suspend : Bool → Patch
  instances : ℕ → Patch
  replicas : ℕ → Patch
  hibernation : (hibernation reconciliation_loop : String) (enable_pod_monitor : Bool) → Patch
  image_name : String → Patch
  restarted_at : String → Patch
  volume_snapshot : (enabled : Bool) (snapshot_class : Option String) → Patch
  running : Bool → Patch
  running_since : (pg_postmaster_start_time : Option ℕ) → Patch
  status : CoreDbStatus → Patch
  cluster_object : Cluster → Patch
  scheduled : (cluster_name schedule : String) (method : BackupMethod) → Patch
  pooler_object : (cluster_name : String) (instances : Option ℕ) → Patch
  metrics_service : (selected_cluster : String) → Patch
  metrics_route : (matcher service_name : String) → Patch

-- The calls that change something, each in a namespace.
pub data Effect : Type 0 where
  delete : Kind → (namespace name : String) → Effect
  patch : Kind → (namespace name : String) → Patch → Effect

pub record World : Type 0 where
  pub config : Config
  pub now : ℕ
  -- `gen_range(low..high)` of the random numbers.
  pub gen_range : ℕ → ℕ → ℕ
  pub answer : Effect → Result KubeError (Unit {0})
  -- Whether `get` answers with a resource.
  pub exists : Kind → String → String → Bool
  pub get_cluster : String → String → Result KubeError Cluster
  pub list_scheduled_backups : String → Result KubeError (List ScheduledBackup)
  pub get_pooler : String → String → Result KubeError Pooler
  pub list_deployments : String → String → Result KubeError (List Deployment)
  -- The backups of a namespace, and those with the label of a cluster.
  pub list_backups : String → Result KubeError (List BackupResource)
  pub list_cluster_backups : String → String → Result KubeError (List BackupResource)
  pub get_coredb : String → String → Result KubeError CoreDb
  -- `is_not_restarting` of extensions/database_queries.rs.
  pub is_not_restarting : CoreDb → Result Action (Option ℕ)

abbrev pub Run {a} : Type a → Type a
Run A = Trace Effect Action A

-- `name_any`, of a resource without a `generateName`.
abbrev pub name_any : CoreDb → String
name_any cdb = unwrap_or "" cdb.name

abbrev pub is_delete : Effect → Bool
is_delete (delete _ _ _) = true
is_delete (patch _ _ _ _) = false

-- Whether something was made before a time.
abbrev pub is_before : ℕ → Option ℕ → Bool
is_before time none = false
is_before time (some made) = ltb made time

-- `requeue_normal_with_jitter`
unfoldable pub requeue_normal_with_jitter : World → Action
requeue_normal_with_jitter world = requeue (world.config.reconcile_ttl + world.gen_range 0 60)
