-- ===== src/Operator/Controller/Tests.antt =====
-- The theorems on the controller, the hibernation and the removal of snapshots at concrete inputs
-- (tembo-operator/src/controller.rs, cloudnativepg/hibernate.rs, retention/snapshots.rs).
use tembo.Prelude.{
  ℕ, ◌≡◌, refl, String, true, false, none, some, List, [], ◌∷◌, map, any, retain, arith, ◌≤◌, ◌<◌,
  ◌==◌, if◌then◌else◌,
}
use tembo.Prelude.Result.{ok, err}
use tembo.Prelude.Trace.{for_each}
use tembo.Operator.Types.{CoreDb, default_spec}
use tembo.Operator.Api.{
  Action, requeue, api, Config, BackupResource, BackupMethod, volume_snapshot, barman_object_store,
  World, is_delete, requeue_normal_with_jitter,
}
use tembo.Operator.Api.ClusterTypes.{default_cluster_spec, Cluster, is_true}
use tembo.Operator.Patches.{patch_cdb_status_merge, hours}
use tembo.Operator.Hibernation.{
  get_cluster, reconcile_cluster_hibernation, is_cluster_hibernated, get_hibernation_condition,
}
use tembo.Operator.Hibernation.Calls.{
  is_disabling, reconcile_cluster_hibernation-running, reconcile_cluster_hibernation-awake,
}
use tembo.Operator.Retention.{
  cleanup_old_volume_snapshots, cutoff, should_delete_backup, volume_snapshot_backups, clean_up,
  delete_backup_and_snapshot,
}
use tembo.Operator.Retention.Deleted.{
  is_expired, calls_for, flat_map, cleanup_old_volume_snapshots-expired,
  cleanup_old_volume_snapshots-all,
}
use tembo.Operator.Controller.Steps.{change, Controller}
use tembo.Operator.Controller.Instance.{reconcile_instance, reconcile_awake}
use tembo.Operator.Controller.Ingress.{reconcile_ingress}
use tembo.Operator.Controller.Backups.{
  process_backups, completed_at, get_recovery_time, enable_volume_snapshot,
  is_volume_snapshot_update_needed, create_volume_snapshot_patch,
}
use tembo.Operator.Controller.Requeue.{IsInRange, reconcile_instance-bounds}
use tembo.Operator.Controller.Order.{reconcile_instance-stopped}

abbrev config : Config
config = record {
  enable_backup = true;
  enable_volume_snapshot = true;
  volume_snapshot_retention_period_days = 40;
  reconcile_timestamp_ttl = 30;
  reconcile_ttl = 90;
}

abbrev hibernated : Cluster
hibernated = record {
  name = some "db";
  namespace = some "org";
  annotations = some (("cnpg.io/hibernation", "on") ∷ []);
  spec = default_cluster_spec;
  status = some (record {
    latest_generated_node = none;
    conditions = some (record { status = is_true; kind = "cnpg.io/hibernation" } ∷ []);
  });
}

abbrev awake : Cluster
awake = record hibernated { status = none }

abbrev backup_of : String → BackupMethod → ℕ → BackupResource
backup_of name method created = record {
  name = some name;
  creation_timestamp = some created;
  method = some method;
  status = none;
}

abbrev completed : BackupResource
completed = record (backup_of "done" volume_snapshot 0) {
  status = some (record {
    backup_name = some "snapshot-1";
    phase = some "completed";
    stopped_at = some "1970-01-01T00:00:07Z";
  });
}

abbrev backups : List BackupResource
backups =
    completed
    ∷ backup_of "old" barman_object_store 1
    ∷ backup_of "new" volume_snapshot (hours 2000)
    ∷ []

-- A cluster that answers every call.
abbrev world_of : Cluster → World
world_of cluster = record {
  config = config;
  now = hours 2000;
  gen_range = λ low high. low;
  answer = λ _. ok tt;
  exists = λ _ _ _. true;
  get_cluster = λ _ _. ok cluster;
  list_scheduled_backups = λ _. ok [];
  get_pooler = λ _ _. err (api 404);
  list_deployments = λ _ _. ok [];
  list_backups = λ _. ok backups;
  list_cluster_backups = λ _ _. ok backups;
  get_coredb = λ _ _. err (api 500);
  is_not_restarting = λ _. ok none;
}

abbrev controller_of : Cluster → Controller
controller_of cluster = record {
  world = world_of cluster;
  step = λ _. ok tt;
  step_or_error = λ _. ok tt;
  basedomain = none;
  ip_allowlist_middleware = ok "allowed";
  extensions = ok ([], []);
  last_archive_status = ok none;
  config_params = ok [];
  phase = none;
  publish = λ _. err (api 429);
  parse_from_rfc3339 = λ text. if text == "1970-01-01T00:00:07Z" then some 7 else none;
}

abbrev stopped : CoreDb
stopped = record {
  name = some "db";
  namespace = some "org";
  annotations = none;
  spec = record default_spec { stop = true };
  status = none;
}

abbrev running : CoreDb
running = record stopped { spec = default_spec }

reconcile_instance-stopped_example :
    (action : Action) × ((reconcile_cluster_hibernation (world_of hibernated) stopped).1
      ≡ err action)
    × (reconcile_instance (controller_of hibernated) stopped
        ≡ (map change (reconcile_cluster_hibernation (world_of hibernated) stopped).0, err action))
unfolding get_cluster
reconcile_instance-stopped_example =
    reconcile_instance-stopped (controller_of hibernated) stopped "org" hibernated refl refl refl

reconcile_cluster_hibernation-running_example :
    any is_delete (reconcile_cluster_hibernation (world_of awake) running).0 ≡ false
reconcile_cluster_hibernation-running_example =
    reconcile_cluster_hibernation-running (world_of awake) running refl

awake_test :
    (found : Cluster)
    → get_cluster (world_of awake) stopped ≡ some found
    → is_cluster_hibernated found ≡ false
unfolding get_cluster is_cluster_hibernated get_hibernation_condition
awake_test found h = let same : awake ≡ found = cc in rw⁻¹ same refl

reconcile_cluster_hibernation-awake_example :
    any is_disabling (reconcile_cluster_hibernation (world_of awake) stopped).0 ≡ false
reconcile_cluster_hibernation-awake_example =
    reconcile_cluster_hibernation-awake (world_of awake) stopped awake_test

-- The backup by volume snapshot that is old enough, and its snapshot.
expired_test :
    flat_map (calls_for "org") (retain (is_expired (cutoff (world_of awake) 40)) backups)
    ≡ calls_for "org" completed
unfolding retain cutoff should_delete_backup
expired_test = refl

cleanup_old_volume_snapshots-expired_example :
    any
      (λ found. any is_delete (calls_for "org" found))
      (retain (is_expired (cutoff (world_of awake) 40)) backups)
    ≡ true
unfolding cleanup_old_volume_snapshots for_each clean_up volume_snapshot_backups retain
    should_delete_backup cutoff delete_backup_and_snapshot
cleanup_old_volume_snapshots-expired_example =
    cleanup_old_volume_snapshots-expired (world_of awake) running 40 "org" backups refl refl
      is_delete refl

cleanup_old_volume_snapshots-all_example :
    cleanup_old_volume_snapshots (world_of awake) running 40
    ≡ (flat_map (calls_for "org") (retain (is_expired (cutoff (world_of awake) 40)) backups), ok tt)
cleanup_old_volume_snapshots-all_example =
    cleanup_old_volume_snapshots-all (world_of awake) running 40 "org" backups refl refl
      (λ found. refl)

in_range : IsInRange (world_of awake)
in_range low high h = (omega arith, omega arith)

-- An instance whose cluster cannot be read goes through every step.
abbrev unread : Controller
unread = record (controller_of awake) {
  world = record (world_of awake) { get_cluster = λ _ _. err (api 500) };
}

goes_through_test : (reconcile_instance unread running).1 ≡ ok (requeue 90)
unfolding reconcile_instance reconcile_awake reconcile_cluster_hibernation get_cluster
    reconcile_ingress enable_volume_snapshot is_volume_snapshot_update_needed
    create_volume_snapshot_patch patch_cdb_status_merge get_recovery_time process_backups
    completed_at cleanup_old_volume_snapshots for_each clean_up volume_snapshot_backups retain
    should_delete_backup cutoff delete_backup_and_snapshot requeue_normal_with_jitter
goes_through_test = refl

reconcile_instance-bounds_example :
    (seconds : ℕ) × (requeue 90 ≡ requeue seconds) × 90 ≤ seconds × seconds < 150
reconcile_instance-bounds_example =
    reconcile_instance-bounds unread running in_range (requeue 90) goes_through_test
