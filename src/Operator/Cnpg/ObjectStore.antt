-- ===== src/Operator/Cnpg/ObjectStore.antt =====
-- The backups of the cluster (tembo-operator/src/cloudnativepg/cnpg.rs).
use Prim.Native.String
use tembo.Prelude.{String, true, Option, none, some, ◌==◌, if◌then◌else◌, unwrap_or}
use tembo.Prelude.Int.{parse_i32, show_int}
use tembo.Operator.Types.{CoreDb}
use tembo.Operator.Types.Backups.{
  Backup, VolumeSnapshot, ServiceAccountTemplate, S3Credentials, GoogleCredentials,
  AzureCredentials,
}
use tembo.Operator.Api.{Config}
use tembo.Operator.Api.ClusterTypes.{
  Encryption, aes256, aws_kms, snappy, BarmanObjectStoreData, BarmanObjectStoreWal,
  BarmanObjectStore, ClusterBackupVolumeSnapshot, ClusterBackup,
}
use tembo.Operator.Controller.Backups.{volume_snapshot_class_name}
use tembo.Operator.Cnpg.Credentials.{
  inherited_role, generate_s3_backup_credentials, generate_google_backup_credentials,
  generate_azure_backup_credentials,
}

-- The encryption that a text names.
unfoldable pub encryption_of : Option String → Option Encryption
encryption_of none = none
encryption_of (some encryption) =
    if encryption == "AES256"
    then some aes256
    else if encryption == "aws:kms"
    then some aws_kms
    else none

unfoldable pub create_cluster_backup_barman_data : Backup → Option BarmanObjectStoreData
unfolding encryption_of
create_cluster_backup_barman_data spec = some (record {
  compression = some snappy;
  encryption = encryption_of spec.encryption;
  immediate_checkpoint = some true;
})

abbrev pub wal_of : Option Encryption → Option BarmanObjectStoreWal
wal_of none = none
wal_of (some encryption) =
    some (record { compression = some snappy; encryption = some encryption; max_parallel = some 8 })

unfoldable pub create_cluster_backup_barman_wal : Backup → Option BarmanObjectStoreWal
unfolding encryption_of
create_cluster_backup_barman_wal spec = wal_of (encryption_of spec.encryption)

pub data BackupCredentials : Type 0 where
  s3 : S3Credentials → BackupCredentials
  google : GoogleCredentials → BackupCredentials
  azure : AzureCredentials → BackupCredentials

abbrev pub with_credentials : BackupCredentials → BarmanObjectStore → BarmanObjectStore
with_credentials (s3 creds) store = record store { s3_credentials = some creds }
with_credentials (google creds) store = record store { google_credentials = some creds }
with_credentials (azure creds) store = record store { azure_credentials = some creds }

-- Without credentials, the role of the instance is used.
unfoldable pub create_cluster_backup_barman_object_store :
    Backup → Option String → String → Option BackupCredentials → BarmanObjectStore
unfolding create_cluster_backup_barman_data create_cluster_backup_barman_wal
create_cluster_backup_barman_object_store spec endpoint_url backup_path credentials =
    with_credentials (unwrap_or (s3 inherited_role) credentials) (record {
      destination_path = backup_path;
      endpoint_url = endpoint_url;
      store_data = create_cluster_backup_barman_data spec;
      wal = create_cluster_backup_barman_wal spec;
      server_name = none;
      s3_credentials = none;
      google_credentials = none;
      azure_credentials = none;
    })

abbrev pub class_of : Option VolumeSnapshot → Option String
class_of none = none
class_of (some snapshot) = snapshot.snapshot_class

unfoldable pub create_cluster_backup_volume_snapshot : Backup → ClusterBackupVolumeSnapshot
create_cluster_backup_volume_snapshot spec = record {
  class_name = some (unwrap_or volume_snapshot_class_name (class_of spec.volume_snapshot));
  online = some true;
  wait_for_archive = some true;
  immediate_checkpoint = some true;
}

-- A retention that is no number is thirty days.
unfoldable pub retention_days : Option String → String
unfolding parse_i32 show_int
retention_days none = "30d"
retention_days (some policy) = elim (parse_i32 policy) [
  | none ↦ "30d"
  | some days ↦ String.◌++◌ (show_int days) "d"
]

abbrev pub snapshot_if_enabled : Backup → Option VolumeSnapshot → Option ClusterBackupVolumeSnapshot
snapshot_if_enabled spec none = none
snapshot_if_enabled spec (some snapshot) =
    if snapshot.enabled then some (create_cluster_backup_volume_snapshot spec) else none

unfoldable pub create_cluster_backup :
    Backup → Option String → String → Option BackupCredentials → Option ClusterBackup
unfolding retention_days create_cluster_backup_barman_object_store
    create_cluster_backup_volume_snapshot
create_cluster_backup spec endpoint_url backup_path credentials = some (record {
  barman_object_store =
      some (create_cluster_backup_barman_object_store spec endpoint_url backup_path credentials);
  retention_policy = some (retention_days spec.retention_policy);
  volume_snapshot = snapshot_if_enabled spec spec.volume_snapshot;
})

abbrev pub google_if : Option GoogleCredentials → Option BackupCredentials
google_if none = none
google_if (some creds) = some (google creds)

abbrev pub azure_if : Option AzureCredentials → Option BackupCredentials
azure_if none = none
azure_if (some creds) = some (azure creds)

-- The first of the three kinds of credentials that the instance has.
unfoldable pub backup_credentials :
    Option S3Credentials
    → Option GoogleCredentials
    → Option AzureCredentials
    → Option BackupCredentials
unfolding generate_s3_backup_credentials generate_google_backup_credentials
    generate_azure_backup_credentials
backup_credentials (some s3_creds) _ _ = some (s3 (generate_s3_backup_credentials (some s3_creds)))
backup_credentials none (some gcs_creds) _ =
    google_if (generate_google_backup_credentials (some gcs_creds))
backup_credentials none none (some azure_creds) =
    azure_if (generate_azure_backup_credentials (some azure_creds))
backup_credentials none none none = none

abbrev pub template_of : ServiceAccountTemplate → Option ServiceAccountTemplate
template_of requested = elim requested.metadata [
  | none ↦ none
  | some metadata ↦ some (record { metadata = some metadata })
]

abbrev pub backup_to : Backup → Option String → Option ClusterBackup
backup_to spec none = none
backup_to spec (some backup_path) =
    create_cluster_backup spec spec.endpoint_url backup_path
      (backup_credentials spec.s3_credentials spec.google_credentials spec.azure_credentials)

unfoldable pub cnpg_backup_configuration :
    CoreDb → Config → Option ClusterBackup × Option ServiceAccountTemplate
unfolding create_cluster_backup backup_credentials
cnpg_backup_configuration cdb cfg = (
  (if cfg.enable_backup then backup_to cdb.spec.backup cdb.spec.backup.destination_path else none),
  template_of cdb.spec.service_account_template,
)
