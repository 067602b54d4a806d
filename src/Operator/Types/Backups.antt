-- ===== src/Operator/Types/Backups.antt =====
-- Where an instance's backups go, and the identity they use
-- (tembo-operator/src/apis/coredb_types.rs).
use tembo.Prelude.{String, Bool, Option, none}
use tembo.Prelude.BTreeMap.{BTreeMap}

-- `k8s_openapi`'s, with the field that the program sets.
pub record ObjectMeta : Type 0 where
  pub annotations : Option (BTreeMap String)

pub record ServiceAccountTemplate : Type 0 where
  pub metadata : Option ObjectMeta

-- A key of a secret. The source has one type for each of the credentials that are such a key.
pub record SecretKey : Type 0 where
  pub key : String
  pub name : String

pub record S3Credentials : Type 0 where
  pub access_key_id : Option SecretKey
  pub inherit_from_iam_role : Option Bool
  pub region : Option SecretKey
  pub secret_access_key : Option SecretKey
  pub session_token : Option SecretKey

pub record GoogleCredentials : Type 0 where
  pub application_credentials : Option SecretKey
  pub gke_environment : Option Bool

pub record AzureCredentials : Type 0 where
  pub connection_string : Option SecretKey
  pub inherit_from_azure_ad : Option Bool
  pub storage_account : Option SecretKey
  pub storage_key : Option SecretKey
  pub storage_sas_token : Option SecretKey

pub record VolumeSnapshot : Type 0 where
  pub enabled : Bool
  pub snapshot_class : Option String

pub record Backup : Type 0 where
  pub destination_path : Option String
  pub encryption : Option String
  pub retention_policy : Option String
  pub schedule : Option String
  pub endpoint_url : Option String
  pub s3_credentials : Option S3Credentials
  pub google_credentials : Option GoogleCredentials
  pub azure_credentials : Option AzureCredentials
  pub volume_snapshot : Option VolumeSnapshot

pub record Restore : Type 0 where
  pub server_name : String
  pub backups_path : Option String
  pub recovery_target_time : Option String
  pub endpoint_url : Option String
  pub s3_credentials : Option S3Credentials
  pub google_credentials : Option GoogleCredentials
  pub azure_credentials : Option AzureCredentials
  pub volume_snapshot : Option Bool

-- The derived `Default`s.
abbrev pub default_backup : Backup
default_backup = record {
  destination_path = none;
  encryption = none;
  retention_policy = none;
  schedule = none;
  endpoint_url = none;
  s3_credentials = none;
  google_credentials = none;
  azure_credentials = none;
  volume_snapshot = none;
}

abbrev pub default_s3_credentials : S3Credentials
default_s3_credentials = record {
  access_key_id = none;
  inherit_from_iam_role = none;
  region = none;
  secret_access_key = none;
  session_token = none;
}

pub record DedicatedNetworking : Type 0 where
  pub enabled : Bool
  pub include_standby : Bool
  pub public : Bool
  pub service_type : String
