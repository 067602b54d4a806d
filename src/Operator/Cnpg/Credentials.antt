-- ===== src/Operator/Cnpg/Credentials.antt =====
-- The credentials and the path of backups and of a restore
-- (tembo-operator/src/cloudnativepg/cnpg.rs).
use Prim.Native.String
use tembo.Prelude.{
  String, true, false, ◌&&◌, Option, none, some, List, [], ◌∷◌, is_some, is_none, unwrap_or,
  if◌then◌else◌, split_char, join,
}
use tembo.Operator.Types.Backups.{
  Backup, S3Credentials, GoogleCredentials, AzureCredentials, Restore, default_s3_credentials,
}

abbrev pub inherited_role : S3Credentials
inherited_role = record default_s3_credentials { inherit_from_iam_role = some true }

abbrev pub s3_of : S3Credentials → S3Credentials
s3_of creds =
    if is_none creds.access_key_id && is_none creds.secret_access_key
    then inherited_role
    else record creds { inherit_from_iam_role = some false }

unfoldable pub generate_s3_backup_credentials : Option S3Credentials → S3Credentials
generate_s3_backup_credentials none = inherited_role
generate_s3_backup_credentials (some creds) = s3_of creds

abbrev pub google_of : GoogleCredentials → Option GoogleCredentials
google_of creds =
    if is_some creds.application_credentials
    then some (record {
      application_credentials = creds.application_credentials;
      gke_environment = some false;
    })
    else if unwrap_or false creds.gke_environment
    then some (record { application_credentials = none; gke_environment = some true })
    else none

unfoldable pub generate_google_backup_credentials :
    Option GoogleCredentials → Option GoogleCredentials
generate_google_backup_credentials none = none
generate_google_backup_credentials (some creds) = google_of creds

abbrev pub no_azure_credentials : AzureCredentials
no_azure_credentials = record {
  connection_string = none;
  inherit_from_azure_ad = none;
  storage_account = none;
  storage_key = none;
  storage_sas_token = none;
}

abbrev pub azure_of : AzureCredentials → Option AzureCredentials
azure_of creds =
    if unwrap_or false creds.inherit_from_azure_ad
    then some (record no_azure_credentials { inherit_from_azure_ad = creds.inherit_from_azure_ad })
    else if is_some creds.storage_key
    then some (record creds { inherit_from_azure_ad = none })
    else none

unfoldable pub generate_azure_backup_credentials : Option AzureCredentials → Option AzureCredentials
generate_azure_backup_credentials none = none
generate_azure_backup_credentials (some creds) = azure_of creds

-- The credentials of a restore are those of the instance's resource, field by field.
unfoldable pub generate_s3_restore_credentials : Option S3Credentials → Option S3Credentials
generate_s3_restore_credentials creds = creds

unfoldable pub generate_gcs_restore_credentials :
    Option GoogleCredentials → Option GoogleCredentials
generate_gcs_restore_credentials creds = creds

unfoldable pub generate_azure_restore_credentials :
    Option AzureCredentials → Option AzureCredentials
generate_azure_restore_credentials creds = creds

-- `pop` of a vector.
unfoldable pub without_last : List String → List String
without_last [] = []
without_last (s ∷ []) = []
without_last (s ∷ t ∷ ts) = s ∷ without_last (t ∷ ts)

unfoldable pub generate_restore_destination_path : Restore → Backup → String
unfolding split_char join without_last
generate_restore_destination_path restore backup = elim restore.backups_path [
  | some path ↦ path
  | none ↦
      let path = unwrap_or "" backup.destination_path in
      String.◌++◌ (join "/" (without_last (split_char 47 path)))
        (String.◌++◌ "/" restore.server_name)
]
