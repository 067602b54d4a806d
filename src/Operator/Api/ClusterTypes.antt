-- ===== src/Operator/Api/ClusterTypes.antt =====
-- The CloudNativePG resource of an instance (tembo-operator/src/cloudnativepg/clusters.rs): of its
-- many fields, those that depend on the instance or are read. The credentials have the fields of
-- those of the instance, so they are the same types here.
use tembo.Prelude.{ℕ, String, Bool, Option, none, List, []}
use tembo.Prelude.BTreeMap.{BTreeMap}
use tembo.Operator.Types.{ResourceRequirements}
use tembo.Operator.Types.Backups.{
  ServiceAccountTemplate, S3Credentials, GoogleCredentials, AzureCredentials, SecretKey,
}

pub data ClusterStatusConditionsStatus : Type 0 where
  is_true is_false is_unknown : ClusterStatusConditionsStatus

pub record ClusterStatusConditions : Type 0 where
  pub status : ClusterStatusConditionsStatus
  pub kind : String

pub record ClusterStatus : Type 0 where
  pub latest_generated_node : Option ℕ
  pub conditions : Option (List ClusterStatusConditions)

pub data Encryption : Type 0 where
  aes256 aws_kms : Encryption

pub data Compression : Type 0 where
  snappy : Compression

pub record BarmanObjectStoreData : Type 0 where
  pub compression : Option Compression
  pub encryption : Option Encryption
  pub immediate_checkpoint : Option Bool

pub record BarmanObjectStoreWal : Type 0 where
  pub compression : Option Compression
  pub encryption : Option Encryption
  pub max_parallel : Option ℕ

-- The object store of backups, and that of an external cluster.
pub record BarmanObjectStore : Type 0 where
  pub destination_path : String
  pub endpoint_url : Option String
  pub store_data : Option BarmanObjectStoreData
  pub wal : Option BarmanObjectStoreWal
  pub server_name : Option String
  pub s3_credentials : Option S3Credentials
  pub google_credentials : Option GoogleCredentials
  pub azure_credentials : Option AzureCredentials

pub record ClusterBackupVolumeSnapshot : Type 0 where
  pub class_name : Option String
  pub online : Option Bool
  pub wait_for_archive : Option Bool
  pub immediate_checkpoint : Option Bool

pub record ClusterBackup : Type 0 where
  pub barman_object_store : Option BarmanObjectStore
  pub retention_policy : Option String
  pub volume_snapshot : Option ClusterBackupVolumeSnapshot

pub data ClusterBootstrap : Type 0 where
  initdb : ClusterBootstrap
  recovery : (source database owner : String) (target_time : Option String) → ClusterBootstrap

pub record ClusterExternalClusters : Type 0 where
  pub name : String
  pub barman_object_store : Option BarmanObjectStore
  pub connection_parameters : Option (BTreeMap String)
  pub password : Option SecretKey

pub record ClusterStorage : Type 0 where
  pub resize_in_use_volumes : Option Bool
  pub size : Option String
  pub storage_class : Option String

pub record ClusterCertificates : Type 0 where
  pub client_ca_secret : Option String
  pub server_ca_secret : Option String
  pub replication_tls_secret : Option String
  pub server_tls_secret : Option String

pub data ClusterPrimaryUpdateMethod : Type 0 where
  restart switchover : ClusterPrimaryUpdateMethod

pub record ClusterManagedRoles : Type 0 where
  pub name : String
  pub password_secret : String
  pub in_roles : List String

pub record CustomQueriesConfigMap : Type 0 where
  pub key : String
  pub name : String

pub record ClusterSpec : Type 0 where
  pub backup : Option ClusterBackup
  pub service_account_template : Option ServiceAccountTemplate
  pub bootstrap : Option ClusterBootstrap
  pub certificates : Option ClusterCertificates
  pub superuser_secret : Option String
  pub external_clusters : Option (List ClusterExternalClusters)
  pub image_name : Option String
  pub inherited_labels : Option (BTreeMap String)
  pub instances : ℕ
  pub managed_roles : List ClusterManagedRoles
  pub custom_queries : Option (List CustomQueriesConfigMap)
  pub parameters : Option (BTreeMap String)
  pub shared_preload_libraries : Option (List String)
  pub primary_update_method : Option ClusterPrimaryUpdateMethod
  pub high_availability : Option Bool
  pub resources : ResourceRequirements
  pub storage : Option ClusterStorage

pub record Cluster : Type 0 where
  pub name : Option String
  pub namespace : Option String
  pub annotations : Option (BTreeMap String)
  pub spec : ClusterSpec
  pub status : Option ClusterStatus

-- The derived `Default`.
abbrev pub default_cluster_spec : ClusterSpec
default_cluster_spec = record {
  backup = none;
  service_account_template = none;
  bootstrap = none;
  certificates = none;
  superuser_secret = none;
  external_clusters = none;
  image_name = none;
  inherited_labels = none;
  instances = 0;
  managed_roles = [];
  custom_queries = none;
  parameters = none;
  shared_preload_libraries = none;
  primary_update_method = none;
  high_availability = none;
  resources = record { limits = none; requests = none };
  storage = none;
}
