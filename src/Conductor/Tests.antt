-- ===== src/Conductor/Tests.antt =====
-- The theorems on the conductor at concrete inputs (conductor/src/main.rs).

use tembo.Prelude.{ℕ, ◌≡◌, refl, ◌⊎◌, inl, inr, true, false, none, some, [], ◌∷◌, any}
use tembo.Prelude.Result.{ok, err}
use tembo.Operator.Params.Value.{single}
use tembo.Operator.Types.{default_spec, CoreDb, CoreDbSpec}
use tembo.Operator.Types.Backups.{default_backup}
use tembo.Conductor.Environment.{check_environment, validate_azure_environment}
use tembo.Conductor.Types.{
  Config, Message, Event, update, delete, ConnectionInfo, no_status_reported,
}
use tembo.Conductor.Round.{World, done}
use tembo.Prelude.Text.{concat}
use tembo.Conductor.Cloud.{
  init_cloud_perms, init_gcp_storage_workload_identity, init_azure_storage_workload_identity,
}
use tembo.Conductor.Events.{
  process, prepare_spec, check_deleted, check_read_ct, handle_event, handle_upsert, apply_spec,
  stop_cloudformation, finish,
}
use tembo.Conductor.Lacks.{is_archive, is_change, Lacks}
use tembo.Conductor.Archives.{IsAnswered, IsExcused, process-archives}
use tembo.Conductor.Untouched.{process-untouched, process-delete_done}

abbrev spec : CoreDbSpec
spec = record default_spec {
  extensions = [];
  trunk_installs = [];
  stop = false;
  stack = none;
  runtime_config = some (record { name = "work_mem"; value = single "8MB" } ∷ []);
  override_configs = none;
}

abbrev instance_1 : CoreDb
instance_1 = record {
  name = some "ns";
  namespace = some "ns";
  annotations = none;
  spec = spec;
  status = none;
}

abbrev connection : ConnectionInfo
connection = record {
  host = "ns.example.com";
  pooler_host = none;
  port = 5432;
  user = "postgres";
  password = "secret";
  app_user = "app";
  app_password = "secret";
}

-- A world without deleted instances, whose calls succeed but for one.
abbrev world : World
world = record {
  archive = λ _. ok tt;
  set_vt = λ _ _. ok tt;
  send = λ _. ok 7;
  select_deleted = λ _. ok none;
  insert_deleted = λ _. ok tt;
  create_cloudformation = λ _ _ _. ok tt;
  lookup_role_arn = λ _. ok "arn";
  delete_cloudformation = λ _. ok tt;
  create_gcp_binding = λ _. ok tt;
  delete_gcp_binding = λ _. ok tt;
  create_azure_binding = λ _. ok "client";
  delete_azure_binding = λ _. ok tt;
  create_namespace = λ _ _ _. ok tt;
  generate_spec = λ _. ok "{}";
  create_or_update = λ _ _. ok tt;
  get_pg_conn = λ _ _. ok connection;
  get_one = λ _. ok instance_1;
  get_coredb_error_without_status = λ _. err no_status_reported;
  delete_coredb = λ _. ok tt;
  delete_namespace = λ _. ok tt;
  restart_coredb = λ _ _. ok tt;
  generate_cron_expression = λ _. "5 4 * * *";
}

abbrev config : Config
config = record {
  backup_archive_bucket = "backups";
  storage_archive_bucket = "storage";
  cf_template_bucket = "";
  max_read_ct = 100;
  is_cloud_formation = false;
  aws_region = "us-east-1";
  is_gcp = true;
  gcp_project_id = "project";
  gcp_project_number = "1";
  is_azure = false;
  azure_storage_account = "";
  azure_subscription_id = "";
  azure_resource_group_prefix = "";
  azure_region = "";
  is_loadbalancer_public = true;
}

abbrev message_of : Event → ℕ → Message
message_of event_type read_ct = record {
  msg_id = 3;
  read_ct = read_ct;
  enqueued_at = 0;
  message = record {
    data_plane_id = "dp";
    org_id = "org";
    inst_id = "inst";
    event_type = event_type;
    namespace = "ns";
    backups_read_path = none;
    backups_write_path = some "v2/ns";
    spec = some spec;
  };
}

process_test : any is_archive (process world config (message_of update 1)).0 ≡ true
unfolding process check_deleted check_read_ct handle_event handle_upsert prepare_spec apply_spec
    init_cloud_perms init_gcp_storage_workload_identity init_azure_storage_workload_identity
    stop_cloudformation finish
process_test = refl

process-archives_example :
    IsAnswered world (message_of update 1) (process world config (message_of update 1)).0
    ⊎ IsExcused world config (message_of update 1)
process-archives_example = process-archives world config (message_of update 1) process_test

process-untouched_example : Lacks is_change (process world config (message_of update 100))
process-untouched_example = process-untouched world config (message_of update 100) (inr (inl refl))

abbrev read_delete : Message
read_delete = message_of delete 1

process-delete_done_example : (process world config (message_of delete 1)).1 ≡ done tt
process-delete_done_example =
    process-delete_done world config (message_of delete 1) 7 refl refl refl refl refl refl refl refl
      refl

abbrev prepared : CoreDbSpec
prepared = record spec {
  backup = record default_backup {
    destination_path = some "gs://backups/v2/ns";
    encryption = some "AES256";
    retention_policy = some "30";
    schedule = some "5 4 * * *";
    google_credentials =
        some (record { application_credentials = none; gke_environment = some true });
    volume_snapshot = some (record { enabled = false; snapshot_class = none });
  };
}

prepare_spec_test : (prepare_spec world config (message_of update 1) spec).1 ≡ done prepared
unfolding prepare_spec init_cloud_perms init_gcp_storage_workload_identity
    init_azure_storage_workload_identity concat
prepare_spec_test = refl

check_environment_test : check_environment config ≡ ok tt
unfolding check_environment validate_azure_environment
check_environment_test = refl
