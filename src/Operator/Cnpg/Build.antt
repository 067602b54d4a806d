-- ===== src/Operator/Cnpg/Build.antt =====
-- The cluster object of an instance (`cnpg_cluster_from_cdb` of
-- tembo-operator/src/cloudnativepg/cnpg.rs). The placement of pods, which is copied from the
-- instance, and the constants of the specification are left out.
use Prim.Native.String
use tembo.Prelude.{
  ℕ, String, Bool, true, false, Option, none, some, List, [], ◌∷◌, ◌++◌, ltb, nat_eq, unwrap_or,
  if◌then◌else◌,
}
use tembo.Prelude.Result.{Result, ok, err}
use tembo.Prelude.BTreeMap.{BTreeMap, get, insert, remove}
use tembo.Operator.Params.Value.{MergeError}
use tembo.Operator.Types.{CoreDb}
use tembo.Operator.Types.Backups.{Restore, AzureCredentials}
use tembo.Operator.Api.{Config, name_any}
use tembo.Operator.Api.ClusterTypes.{
  aes256, snappy, BarmanObjectStore, ClusterBootstrap, initdb, recovery, ClusterExternalClusters,
  ClusterStorage, ClusterCertificates, ClusterPrimaryUpdateMethod, restart, switchover,
  ClusterManagedRoles, CustomQueriesConfigMap, Cluster,
}
use tembo.Operator.Controller.Instance.{has_queries}
use tembo.Operator.Cnpg.Credentials.{
  generate_s3_restore_credentials, generate_gcs_restore_credentials,
  generate_azure_restore_credentials, generate_restore_destination_path,
}
use tembo.Operator.Cnpg.ObjectStore.{cnpg_backup_configuration}
use tembo.Operator.Cnpg.Postgres.{PostgresConfig, cnpg_postgres_config}

-- What is read of the environment, and chrono's readings of a time in one of three formats, each
-- written as CloudNativePG expects it.
pub record Environment : Type 0 where
  pub config : Config
  pub use_shared_ca : Bool
  pub custom_metrics : Bool
  pub naive_time : String → Option String
  pub time_with_offset : String → Option String
  pub rfc3339_time : String → Option String
  -- `format!("{:?}")` of a list of texts.
  pub debug_list : List String → String

abbrev pub suffix : String → String → String
suffix name end = String.◌++◌ name end

abbrev pub or_try : Option String → Option String → Option String
or_try (some s) later = some s
or_try none later = later

-- A time in none of the formats is an error, which is only logged.
unfoldable pub parse_target_time : Environment → String → Option String
parse_target_time env text =
    or_try (env.naive_time text) (or_try (env.time_with_offset text) (env.rfc3339_time text))

abbrev pub target_of : Environment → Option String → Option String
target_of env none = none
target_of env (some text) = parse_target_time env text

unfoldable pub cnpg_cluster_bootstrap : Environment → Option Restore → ClusterBootstrap
unfolding parse_target_time
cnpg_cluster_bootstrap env none = initdb
cnpg_cluster_bootstrap env (some restore) =
    recovery "tembo-recovery" "app" "app" (target_of env restore.recovery_target_time)

abbrev pub recovery_store : CoreDb → Restore → BarmanObjectStore
recovery_store cdb restore = record {
  destination_path = generate_restore_destination_path restore cdb.spec.backup;
  endpoint_url = restore.endpoint_url;
  store_data = none;
  wal =
      some (record { compression = some snappy; encryption = some aes256; max_parallel = some 8 });
  server_name = some restore.server_name;
  s3_credentials = generate_s3_restore_credentials restore.s3_credentials;
  google_credentials = generate_gcs_restore_credentials restore.google_credentials;
  azure_credentials = generate_azure_restore_credentials restore.azure_credentials;
}

abbrev pub external_cluster : CoreDb → Option Restore → ClusterExternalClusters
external_cluster cdb (some restore) = record {
  name = "tembo-recovery";
  barman_object_store = some (recovery_store cdb restore);
  connection_parameters = none;
  password = none;
}
external_cluster cdb none = record {
  name = "coredb";
  barman_object_store = none;
  connection_parameters = some (("host", name_any cdb) ∷ ("user", "postgres") ∷ []);
  password = some (record { key = "password"; name = suffix (name_any cdb) "-connection" });
}

unfoldable pub cnpg_cluster_bootstrap_from_cdb :
    Environment → CoreDb → ClusterBootstrap × ClusterExternalClusters × String
unfolding cnpg_cluster_bootstrap generate_restore_destination_path generate_s3_restore_credentials
    generate_gcs_restore_credentials generate_azure_restore_credentials
cnpg_cluster_bootstrap_from_cdb env cdb = (
  cnpg_cluster_bootstrap env cdb.spec.restore,
  external_cluster cdb cdb.spec.restore,
  suffix (name_any cdb) "-connection",
)

unfoldable pub create_cluster_certificates : Environment → CoreDb → Option ClusterCertificates
create_cluster_certificates env cdb =
    if env.use_shared_ca
    then some (record {
      client_ca_secret = some (suffix (name_any cdb) "-ca1");
      server_ca_secret = some (suffix (name_any cdb) "-ca1");
      replication_tls_secret = some (suffix (name_any cdb) "-replication1");
      server_tls_secret = some (suffix (name_any cdb) "-server1");
    })
    else none

unfoldable pub cnpg_cluster_storage_class : CoreDb → Option String
cnpg_cluster_storage_class cdb = unless_blank cdb.spec.storage_class
  where
    unless_blank : Option String → Option String
    unless_blank none = none
    unless_blank (some String.[]) = none
    unless_blank (some (String.◌∷◌ c s)) = some (String.◌∷◌ c s)

unfoldable pub cnpg_cluster_storage : CoreDb → Option ClusterStorage
unfolding cnpg_cluster_storage_class
cnpg_cluster_storage cdb = some (record {
  resize_in_use_volumes = some true;
  size = some cdb.spec.storage;
  storage_class = cnpg_cluster_storage_class cdb;
})

-- Whether the replication slots are for high availability.
unfoldable pub cnpg_high_availability : CoreDb → Bool
cnpg_high_availability cdb = ltb 1 cdb.spec.replicas

abbrev pub rename_org : Option String → BTreeMap String → BTreeMap String
rename_org none annotations = annotations
rename_org (some org_id) annotations =
    insert "tembo.io/organization_id" org_id (remove "tembo.io/org_id" annotations)

unfoldable pub default_cluster_annotations : CoreDb → BTreeMap String
unfolding insert remove get
default_cluster_annotations cdb =
    let annotations =
      insert "tembo-pod-init.tembo.io/inject" "true" (unwrap_or [] cdb.annotations) in
    rename_org (get "tembo.io/org_id" annotations) annotations

unfoldable pub inherited_metadata : Option AzureCredentials → Option (BTreeMap String)
inherited_metadata none = none
inherited_metadata (some creds) =
    if unwrap_or false creds.inherit_from_azure_ad
    then some (("azure.workload.identity/use", "true") ∷ [])
    else none

unfoldable pub determine_primary_update_method : ℕ → ClusterPrimaryUpdateMethod
determine_primary_update_method instances = if nat_eq instances 1 then restart else switchover

unfoldable pub cluster_managed : String → List ClusterManagedRoles
cluster_managed name =
    record {
      name = "readonly";
      password_secret = suffix name "-ro";
      in_roles = "pg_read_all_data" ∷ [];
    }
    ∷ record {
      name = "postgres_exporter";
      password_secret = suffix name "-exporter";
      in_roles = "pg_read_all_stats" ∷ "pg_monitor" ∷ [];
    }
    ∷ []

abbrev pub custom_queries_of : Environment → CoreDb → List CustomQueriesConfigMap
custom_queries_of env cdb =
    record { key = "queries"; name = "cnpg-default-monitoring" }
      ∷ (if env.custom_metrics
          then record { key = "custom-queries"; name = suffix (name_any cdb) "-custom" } ∷ []
          else [])
    ++ (if has_queries cdb.spec.metrics
        then record { key = "tembo-queries"; name = suffix "metrics-" (name_any cdb) } ∷ []
        else [])

-- A configuration that cannot be merged is left out, with a message.
abbrev pub config_or_none : Result MergeError PostgresConfig → PostgresConfig
config_or_none (ok config) = config
config_or_none (err e) = record { postgres_parameters = none; shared_preload_libraries = none }

abbrev pub with_fenced : Environment → Option (List String) → BTreeMap String → BTreeMap String
with_fenced env none annotations = annotations
with_fenced env (some pods) annotations =
    insert "cnpg.io/fencedInstances" (env.debug_list pods) annotations

unfoldable pub cnpg_cluster_from_cdb :
    Environment → CoreDb → Option (List String) → BTreeMap String → Cluster
unfolding default_cluster_annotations cnpg_cluster_bootstrap_from_cdb cnpg_backup_configuration
    cnpg_cluster_storage cnpg_high_availability create_cluster_certificates inherited_metadata
    determine_primary_update_method cluster_managed cnpg_postgres_config insert
cnpg_cluster_from_cdb env cdb fenced_pods requires_load =
    let (bootstrap, external, superuser_secret) = cnpg_cluster_bootstrap_from_cdb env cdb in
    let (backup, template) = cnpg_backup_configuration cdb env.config in
    let postgres = config_or_none (cnpg_postgres_config cdb.spec requires_load) in
    record {
      name = some (name_any cdb);
      namespace = cdb.namespace;
      annotations = some (with_fenced env fenced_pods (default_cluster_annotations cdb));
      spec = record {
        backup = backup;
        service_account_template = template;
        bootstrap = some bootstrap;
        certificates = create_cluster_certificates env cdb;
        superuser_secret = some superuser_secret;
        external_clusters = some (external ∷ []);
        image_name = some cdb.spec.image;
        inherited_labels = inherited_metadata cdb.spec.backup.azure_credentials;
        instances = cdb.spec.replicas;
        managed_roles = cluster_managed (name_any cdb);
        custom_queries = some (custom_queries_of env cdb);
        parameters = postgres.postgres_parameters;
        shared_preload_libraries = postgres.shared_preload_libraries;
        primary_update_method = some (determine_primary_update_method cdb.spec.replicas);
        high_availability = some (cnpg_high_availability cdb);
        resources = cdb.spec.resources;
        storage = cnpg_cluster_storage cdb;
      };
      status = none;
    }
