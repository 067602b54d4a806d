-- ===== src/Operator/Cnpg/Tests.antt =====
-- The theorems on the cluster object at concrete inputs
-- (tembo-operator/src/cloudnativepg/cnpg.rs).
use tembo.Prelude.{
  refl, ◌≡◌, true, false, Option, none, some, [], ◌∷◌, any, unwrap_or, join, str_lt,
}
use tembo.Prelude.Result.{ok, err}
use tembo.Prelude.BTreeMap
use tembo.Prelude.BTreeSet
use tembo.Prelude.Sort
use tembo.Operator.Types.{CoreDb, default_spec}
use tembo.Operator.Params.Value.{
  PgConfig, single, display, sort_multivalue_configs, merge_pg_configs,
}
use tembo.Operator.Spec.{
  get_pg_config_by_name, get_pg_configs, runtime_layer, merge_multivals, assemble, insert_all,
  remove_all, libraries_from, require_library, replace_or_push,
}
use tembo.Operator.Api.{api, Config, World}
use tembo.Operator.Api.ClusterTypes.{Cluster, default_cluster_spec}
use tembo.Operator.Controller.Pods.{Pods}
use tembo.Operator.Cnpg.Postgres.{PostgresConfig, cnpg_postgres_config, parameters_of, libraries_of}
use tembo.Operator.Cnpg.Postgres.Parameters.{written, cnpg_postgres_config-parameters}
use tembo.Operator.Cnpg.Fencing.{Answers}
use tembo.Operator.Cnpg.Reconcile.{reconcile_cnpg, current_libraries}
use tembo.Operator.Cnpg.Reconcile.Libraries.{is_unbacked, usable, reconcile_cnpg-libraries}

abbrev instance_1 : CoreDb
instance_1 = record {
  name = some "db";
  namespace = some "org";
  annotations = none;
  spec = record default_spec {
    replicas = 1;
    runtime_config = some (record { name = "work_mem"; value = single "8MB" } ∷ []);
  };
  status = none;
}

abbrev there : Cluster
there = record {
  name = some "db";
  namespace = some "org";
  annotations = none;
  spec = record default_cluster_spec {
    instances = 1;
    shared_preload_libraries = some ("citus" ∷ []);
  };
  status = none;
}

abbrev config : Config
config = record {
  enable_backup = true;
  enable_volume_snapshot = false;
  volume_snapshot_retention_period_days = 40;
  reconcile_timestamp_ttl = 30;
  reconcile_ttl = 90;
}

abbrev world : World
world = record {
  config = config;
  now = 0;
  gen_range = λ low high. low;
  answer = λ _. ok tt;
  exists = λ _ _ _. false;
  get_cluster = λ _ _. ok there;
  list_scheduled_backups = λ _. ok [];
  get_pooler = λ _ _. err (api 404);
  list_deployments = λ _ _. ok [];
  list_backups = λ _. ok [];
  list_cluster_backups = λ _ _. ok [];
  get_coredb = λ _ _. ok instance_1;
  is_not_restarting = λ _. ok none;
}

abbrev pods : Pods
pods = record {
  extensions_that_require_load = λ _. ok [];
  list_primary = λ _ _. ok (record { name = some "db-1"; status = none } ∷ []);
  list_instance_primary = λ _ _. ok [];
  list_replicas = λ _ _. ok [];
  get_pod = λ _ _. err (api 404);
}

abbrev answers : Answers
answers = record {
  world = world;
  pods = pods;
  env = record {
    config = config;
    use_shared_ca = false;
    custom_metrics = false;
    naive_time = λ _. none;
    time_with_offset = λ _. none;
    rfc3339_time = λ _. none;
    debug_list = λ _. "[]";
  };
  list_immediate_backups = λ _ _. ok [];
  from_json = λ _. none;
  to_json = λ _. "[]";
  exec = λ _. ok (some "citus.so");
  basedomain = none;
}

reconcile_cnpg-libraries_example :
    any
      (is_unbacked
        (current_libraries (world.get_cluster "org" "db"))
        (usable answers instance_1 (world.get_cluster "org" "db")))
      (reconcile_cnpg answers instance_1).0
    ≡ false
reconcile_cnpg-libraries_example = reconcile_cnpg-libraries answers instance_1 "org" refl

abbrev configured : PostgresConfig
configured = record {
  postgres_parameters = some (("ssl_min_protocol_version", "TLSv1.2") ∷ ("work_mem", "8MB") ∷ []);
  shared_preload_libraries = some ("" ∷ []);
}

cnpg_postgres_config_test : cnpg_postgres_config instance_1.spec [] ≡ ok configured
unfolding cnpg_postgres_config parameters_of libraries_of display join sort_multivalue_configs
    get_pg_configs runtime_layer merge_multivals merge_pg_configs assemble insert_all remove_all
    libraries_from require_library replace_or_push BTreeSet.insert BTreeSet.append BTreeMap.insert
    BTreeMap.remove str_lt Sort.sort_by
cnpg_postgres_config_test = refl

cnpg_postgres_config-parameters_example :
    (found : Option PgConfig) × (get_pg_config_by_name instance_1.spec "work_mem" [] ≡ ok found)
    × (BTreeMap.get "work_mem" (unwrap_or [] configured.postgres_parameters) ≡ written found)
cnpg_postgres_config-parameters_example =
    cnpg_postgres_config-parameters instance_1.spec [] configured "work_mem"
      cnpg_postgres_config_test refl
