-- ===== src/Conductor/Types.antt =====
-- Messages and errors of the conductor (conductor/src/types.rs, errors.rs, cloud.rs) and the
-- variables of its environment (conductor/src/main.rs). An error of a library is its text;
-- `max_read_ct` is taken not to be negative.
use tembo.Prelude.{ℕ, String, Bool, true, false, Option, if◌then◌else◌}
use tembo.Operator.Types.{CoreDbSpec, CoreDbStatus}

pub data Event : Type 0 where
  create created error update updated restart restarted stop stop_complete : Event
  delete deleted start started restore restored : Event

pub record CrudEvent : Type 0 where
  pub data_plane_id : String
  pub org_id : String
  pub inst_id : String
  pub event_type : Event
  pub namespace : String
  pub backups_read_path : Option String
  pub backups_write_path : Option String
  pub spec : Option CoreDbSpec

pub record ConnectionInfo : Type 0 where
  pub host : String
  pub pooler_host : Option String
  pub port : ℕ
  pub user : String
  pub password : String
  pub app_user : String
  pub app_password : String

pub record StateToControlPlane : Type 0 where
  pub data_plane_id : String
  pub event_type : Event
  pub org_id : String
  pub inst_id : String
  pub spec : Option CoreDbSpec
  pub status : Option CoreDbStatus
  pub connection : Option ConnectionInfo

-- `pgmq::Message<CRUDevent>`, with the fields that the loop reads.
pub record Message : Type 0 where
  pub msg_id : ℕ
  pub read_ct : ℕ
  pub enqueued_at : ℕ
  pub message : CrudEvent

pub data ConductorError : Type 0 where
  json_parsing_error kube_error connection_pool_error event_id_parsing : String → ConductorError
  no_status_reported event_id_format no_outputs_found : ConductorError
  postgres_connection_info_not_found parsing_postgres_connection_error : ConductorError
  pgmq_error aws_error secret_data_not_found name_or_namespace_not_found : String → ConductorError
  gcs_error dataplane_error azure_error : String → ConductorError

pub data CloudProvider : Type 0 where
  aws azure gcp unknown : CloudProvider

pub record Config : Type 0 where
  pub backup_archive_bucket : String
  pub storage_archive_bucket : String
  pub cf_template_bucket : String
  pub max_read_ct : ℕ
  pub is_cloud_formation : Bool
  pub aws_region : String
  pub is_gcp : Bool
  pub gcp_project_id : String
  pub gcp_project_number : String
  pub is_azure : Bool
  pub azure_storage_account : String
  pub azure_subscription_id : String
  pub azure_resource_group_prefix : String
  pub azure_region : String
  pub is_loadbalancer_public : Bool

-- `CloudProvider::builder().gcp(…).aws(…).azure(…).build()`
abbrev pub cloud_provider : Config → CloudProvider
cloud_provider config =
    if config.is_gcp
    then gcp
    else if config.is_cloud_formation
    then aws
    else if config.is_azure
    then azure
    else unknown

abbrev pub is_delete : Event → Bool
is_delete delete = true
is_delete _ = false

abbrev pub is_stop : Event → Bool
is_stop stop = true
is_stop _ = false
