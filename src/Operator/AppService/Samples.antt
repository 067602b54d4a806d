-- ===== src/Operator/AppService/Samples.antt =====
-- An application, its instance and a cluster that answers every call
-- (tembo-operator/src/app_service).
use tembo.Prelude.{String, true, none, some, List, [], ◌∷◌}
use tembo.Prelude.Result.{ok}
use tembo.Prelude.BTreeMap.{BTreeMap}
use tembo.Operator.Types.{CoreDb, default_spec}
use tembo.Operator.Types.AppServices.{
  AppService, AppEnvVar, read_write_connection, EnvVar, Routing, http, tcp, default_resources,
}
use tembo.Operator.AppService.Objects.{OwnerReference}
use tembo.Operator.AppService.Workload.{Setting}
use tembo.Operator.AppService.Calls.{World}

abbrev pub routed_at : String → Routing
routed_at path = record {
  port = 3000;
  ingress_path = some path;
  middlewares = none;
  entry_points = some ("websecure" ∷ []);
  ingress_type = some http;
}

abbrev pub user_envs : List AppEnvVar
user_envs =
    record { name = "LEVEL"; value = some "info"; value_from_platform = none }
    ∷ record { name = "URI"; value = none; value_from_platform = some read_write_connection }
    ∷ record { name = "LEVEL"; value = some "debug"; value_from_platform = none }
    ∷ []

abbrev pub rest_service : AppService
rest_service = record {
  name = "rest";
  image = "postgrest/postgrest:v10.0.0";
  args = none;
  command = none;
  env = some user_envs;
  resources = default_resources;
  probes = none;
  metrics = none;
  middlewares = none;
  routing =
      some (routed_at "/rest/v1" ∷ record (routed_at "/tcp") { ingress_type = some tcp } ∷ []);
  storage = none;
}

abbrev pub instance_annotations : BTreeMap String
instance_annotations = ("tembo.io/instance_id", "inst_1") ∷ ("tembo.io/org_id", "org_1") ∷ []

abbrev pub instance_db : CoreDb
instance_db = record {
  name = some "my-db";
  namespace = some "ns";
  annotations = some instance_annotations;
  spec = record default_spec { app_services = some (rest_service ∷ []) };
  status = none;
}

abbrev pub owner : OwnerReference
owner = record {
  api_version = "coredb.io/v1alpha1";
  kind = "CoreDB";
  name = "my-db";
  uid = "uid";
  controller = some true;
  block_owner_deletion = none;
}

abbrev pub forwarded_vars : List EnvVar
forwarded_vars =
    record { name = "TEMBO_URL"; value = some "https://tembo.io"; value_from = none } ∷ []

abbrev pub plain_setting : Setting
plain_setting = record {
  vars = some ("TEMBO_APPS_DEFAULT_ENV_URL", "https://tembo.io") ∷ some ("HOME", "/") ∷ [];
  use_shared_ca = true;
  basedomain = some "tembo.io";
  distinct = λ ports. ports;
}

-- The cluster has the deployment of an application that the instance has no more.
abbrev pub calm_world : World
calm_world = record {
  answer = λ asked. ok tt;
  list_deployments = λ label. ok (some "my-db-rest" ∷ some "my-db-old" ∷ []);
  list_services = λ label. ok [];
  list_middlewares = λ label. ok [];
  list_ingress_routes = ok [];
  list_ingress_routes_tcp = ok [];
  get_service_uid = λ name. ok none;
  get_secret =
      λ name. ok (some (("password", some "secret") ∷ ("ro_uri", some "postgresql://ro") ∷ []));
  controller_owner_ref = λ cdb. some owner;
}
