-- ===== src/Conductor/Cloud.antt =====
-- What a create or update event adds to the specification of the instance: backups, identity and
-- storage (conductor/src/main.rs).
use Prim.Native.String
use tembo.Prelude.{
  String, Bool, true, false, Option, none, some, List, [], ◌∷◌, ◌++◌, any, ◌==◌, unwrap_or,
  if◌then◌else◌,
}
use tembo.Prelude.Text.{concat}
use tembo.Operator.Params.Value.{PgConfig, single}
use tembo.Operator.Types.{CoreDbSpec}
use tembo.Operator.Types.Backups.{
  Backup, ServiceAccountTemplate, DedicatedNetworking, VolumeSnapshot, default_backup,
  default_s3_credentials,
}
use tembo.Conductor.Types.{Config, Message}
use tembo.Conductor.Round.{
  Round, World, create_cloudformation, lookup_role_arn, create_gcp_binding, create_azure_binding,
  pure, call, ◌>>=◌, ◌>>◌,
}

abbrev pub annotated : String → String → ServiceAccountTemplate
annotated key value = record { metadata = some (record { annotations = some ((key, value) ∷ []) }) }

abbrev no_snapshots : VolumeSnapshot
no_snapshots = record { enabled = false; snapshot_class = none }

-- The backup fields that all clouds set alike.
abbrev pub base_backup : World → Message → String → Backup
base_backup world read_msg destination = record default_backup {
  destination_path = some destination;
  encryption = some "AES256";
  retention_policy = some "30";
  schedule = some (world.generate_cron_expression read_msg.message.namespace);
  volume_snapshot = some no_snapshots;
}

abbrev pub versioned_path : Message → String
versioned_path read_msg =
    unwrap_or (String.◌++◌ "v2/" read_msg.message.namespace) read_msg.message.backups_write_path

abbrev pub make_public : Bool → Option DedicatedNetworking → Option DedicatedNetworking
make_public true (some networking) = some (record networking { public = true })
make_public _ networking = networking

abbrev pub with_aws : World → Config → Message → String → CoreDbSpec → CoreDbSpec
with_aws world config read_msg role_arn coredb_spec = record coredb_spec {
  backup =
      record (base_backup world read_msg
        (concat ("s3://" ∷ config.backup_archive_bucket ∷ "/" ∷ versioned_path read_msg ∷ []))) {
          s3_credentials =
              some (record default_s3_credentials { inherit_from_iam_role = some true });
        };
  service_account_template = annotated "eks.amazonaws.com/role-arn" role_arn;
  dedicated_networking = make_public config.is_loadbalancer_public coredb_spec.dedicated_networking;
}

abbrev pub with_gcp : World → Config → Message → CoreDbSpec → CoreDbSpec
with_gcp world config read_msg coredb_spec = record coredb_spec {
  backup =
      record (base_backup world read_msg
        (concat ("gs://" ∷ config.backup_archive_bucket ∷ "/" ∷ versioned_path read_msg ∷ []))) {
          google_credentials =
              some (record { application_credentials = none; gke_environment = some true });
        };
}

abbrev pub with_azure : World → Config → Message → String → CoreDbSpec → CoreDbSpec
with_azure world config read_msg uami_client_id coredb_spec = record coredb_spec {
  backup =
      record (base_backup world read_msg (
        concat (
          "https://"
          ∷ config.azure_storage_account
          ∷ ".blob.core.windows.net/"
          ∷ config.backup_archive_bucket
          ∷ "/"
          ∷ unwrap_or "v2" read_msg.message.backups_write_path
          ∷ []))) {
            azure_credentials = some (record {
              connection_string = none;
              inherit_from_azure_ad = some true;
              storage_account = none;
              storage_key = none;
              storage_sas_token = none;
            });
          };
  service_account_template = annotated "azure.workload.identity/client-id" uami_client_id;
}

-- The three initialisations: each with the specification that it leaves behind.
unfoldable pub init_cloud_perms : World → Config → Message → CoreDbSpec → Round CoreDbSpec
init_cloud_perms world config read_msg coredb_spec =
    let event = read_msg.message in
    if config.is_cloud_formation
    then (do
      call (create_cloudformation event.namespace event.backups_read_path event.backups_write_path)
          (world.create_cloudformation event.namespace event.backups_read_path
            event.backups_write_path)
      role_arn ← call (lookup_role_arn event.namespace) (world.lookup_role_arn event.namespace)
      pure (with_aws world config read_msg role_arn coredb_spec))
    else pure coredb_spec

unfoldable pub init_gcp_storage_workload_identity :
    World → Config → Message → CoreDbSpec → Round CoreDbSpec
init_gcp_storage_workload_identity world config read_msg coredb_spec =
    let namespace = read_msg.message.namespace in
    if config.is_gcp
    then (do
      call (create_gcp_binding namespace) (world.create_gcp_binding namespace)
      pure (with_gcp world config read_msg coredb_spec))
    else pure coredb_spec

unfoldable pub init_azure_storage_workload_identity :
    World → Config → Message → CoreDbSpec → Round CoreDbSpec
init_azure_storage_workload_identity world config read_msg coredb_spec =
    let namespace = read_msg.message.namespace in
    if config.is_azure
    then (do
      uami_client_id ← call (create_azure_binding namespace) (world.create_azure_binding namespace)
      pure (with_azure world config read_msg uami_client_id coredb_spec))
    else pure coredb_spec

abbrev pub storage_name : String
storage_name = "tembo.storage_bucket_and_path"

abbrev pub with_storage : String → List PgConfig → CoreDbSpec → CoreDbSpec
with_storage path current coredb_spec =
    if any (λ c. c.name == storage_name) current then coredb_spec else record coredb_spec {
      runtime_config = some (current ++ record { name = storage_name; value = single path } ∷ []);
    }

abbrev pub include_path : String → Option String → CoreDbSpec → CoreDbSpec
include_path bucket none coredb_spec = coredb_spec
include_path bucket (some write_path) coredb_spec =
    with_storage (concat (bucket ∷ "/" ∷ write_path ∷ [])) (unwrap_or [] coredb_spec.runtime_config)
      coredb_spec

unfoldable pub include_storage_configuration : String → Message → CoreDbSpec → CoreDbSpec
include_storage_configuration storage_archive_bucket read_msg coredb_spec =
    include_path storage_archive_bucket read_msg.message.backups_write_path coredb_spec
