-- ===== src/Operator/Controller/Instance.antt =====
-- The reconciliation of an instance (`CoreDB::reconcile` of tembo-operator/src/controller.rs).

use tembo.Prelude.{ℕ, String, Bool, true, false, Option, none, some, List, is_some, if◌then◌else◌}
use tembo.Prelude.Result.{ok_or}
use tembo.Prelude.Trace.{pure, call, lift, ◌>>=◌, ◌>>◌}
use tembo.Operator.Params.Value.{PgConfig}
use tembo.Operator.Types.{
  CoreDb, CoreDbStatus, ExtensionStatus, TrunkInstallStatus, PostgresMetrics,
}
use tembo.Operator.Api.{
  Action, requeue, Patch, running_since, status, World, Run, name_any, requeue_normal_with_jitter,
}
use tembo.Operator.Patches.{patch_cdb_status_merge}
use tembo.Operator.Hibernation.{reconcile_cluster_hibernation}
use tembo.Operator.Retention.{cleanup_old_volume_snapshots}
use tembo.Operator.Controller.Steps.{
  network_policies, trunk_configmap, certificates, metrics_configmap, secret, app_services,
  generic_metrics_configmap, postgres_role_secret, cnpg, cnpg_scheduled_backup,
  postgres_exporter_cleanup, pooler, is_not_restarting, extensions, last_archive_status,
  config_params, heartbeat, step, Controller, Reconciliation, within, perform, perform_or_300,
}
use tembo.Operator.Controller.Ingress.{suffixed, reconcile_ingress}
use tembo.Operator.Controller.Backups.{enable_volume_snapshot, get_recovery_time}

abbrev pub has_queries : Option PostgresMetrics → Bool
has_queries none = false
has_queries (some metrics) = is_some metrics.queries

-- The status of an instance that is fully reconciled.
abbrev pub new_status :
    CoreDb
    → Option ℕ
    → List TrunkInstallStatus × List ExtensionStatus
    → Option ℕ
    → Option ℕ
    → List PgConfig
    → CoreDbStatus
new_status cdb pg_postmaster_start_time (installs, exts) recovery_time archiver configs = record {
  running = true;
  extensions_updating = false;
  extensions = some exts;
  trunk_installs = some installs;
  storage = some cdb.spec.storage;
  resources = some cdb.spec.resources;
  runtime_config = some configs;
  first_recoverability_time = recovery_time;
  pg_postmaster_start_time = pg_postmaster_start_time;
  last_fully_reconciled_at = none;
  last_archiver_status = archiver;
}

-- From the hibernation to the secret of the superuser.
abbrev pub reconcile_access : Controller → String → CoreDb → Reconciliation (Unit {0})
reconcile_access world namespace cdb = do
  perform world (network_policies namespace)
  perform world (trunk_configmap namespace)
  perform world (certificates namespace)
  reconcile_ingress world cdb world.basedomain
  perform world secret
  perform world app_services

abbrev pub reconcile_metrics : Controller → String → CoreDb → Reconciliation (Unit {0})
reconcile_metrics world namespace cdb = do
  if has_queries cdb.spec.metrics
      then perform_or_300 world (metrics_configmap namespace)
      else pure tt
  perform_or_300 world (postgres_role_secret "readonly" (suffixed cdb "-ro"))
  perform world generic_metrics_configmap

-- The cluster, its backups and its pooler.
abbrev pub reconcile_cluster : Controller → CoreDb → Reconciliation (Unit {0})
reconcile_cluster world cdb = do
  within (enable_volume_snapshot world.world cdb)
  perform world cnpg
  if world.world.config.enable_backup then perform world cnpg_scheduled_backup else pure tt
  perform_or_300 world postgres_exporter_cleanup
  perform world pooler

abbrev pub report : Controller → String → CoreDb → Patch → Reconciliation (Unit {0})
report world namespace cdb reached =
    within (patch_cdb_status_merge world.world namespace (name_any cdb) reached)

-- What is read from the instance for its status, once it runs.
abbrev pub collect_status : Controller → String → CoreDb → Option ℕ → Reconciliation CoreDbStatus
collect_status world namespace cdb pg_postmaster_start_time = do
  report world namespace cdb (running_since pg_postmaster_start_time)
  installed ← call (step extensions) world.extensions
  recovery_time ← get_recovery_time world cdb
  archiver ← call (step last_archive_status) world.last_archive_status
  configs ← call (step config_params) world.config_params
  pure (new_status cdb pg_postmaster_start_time installed recovery_time archiver configs)

abbrev pub reconcile_database : Controller → String → CoreDb → Reconciliation (Unit {0})
reconcile_database world namespace cdb = do
  pg_postmaster_start_time ← call (step is_not_restarting) (world.world.is_not_restarting cdb)
  reached ← collect_status world namespace cdb pg_postmaster_start_time
  report world namespace cdb (status reached)
  perform world heartbeat

abbrev pub reconcile_retention : World → CoreDb → Run (Unit {0})
reconcile_retention world cdb =
    if world.config.enable_volume_snapshot
    then cleanup_old_volume_snapshots world cdb world.config.volume_snapshot_retention_period_days
    else pure tt

-- What follows the hibernation.
unfoldable pub reconcile_awake : Controller → String → CoreDb → Reconciliation Action
unfolding reconcile_ingress enable_volume_snapshot get_recovery_time
reconcile_awake world namespace cdb = do
  reconcile_access world namespace cdb
  reconcile_metrics world namespace cdb
  reconcile_cluster world cdb
  reconcile_database world namespace cdb
  within (reconcile_retention world.world cdb)
  pure (requeue_normal_with_jitter world.world)

-- The source unwraps the namespace, which a resource of the cluster has.
unfoldable pub reconcile_instance : Controller → CoreDb → Reconciliation Action
unfolding reconcile_awake
reconcile_instance world cdb = do
  namespace ← lift (ok_or (requeue 300) cdb.namespace)
  within (reconcile_cluster_hibernation world.world cdb)
  reconcile_awake world namespace cdb
