-- ===== src/Operator/Types.antt =====
-- The resource that the operator reconciles (tembo-operator/src/apis/coredb_types.rs and
-- tembo-operator/src/extensions/types.rs). A `DateTime<Utc>` is a number of nanoseconds, a
-- `Quantity` its text. Of the spec and the metadata there are the fields that the modelled
-- operations read.
pub mod Backups
pub mod AppServices
pub use tembo.Operator.Types.AppServices.{ResourceRequirements}
use tembo.Prelude.{ℕ, String, Bool, false, Option, none, List, [], map, unwrap_or}
use tembo.Prelude.BTreeMap.{BTreeMap}
use tembo.Operator.Params.Value.{PgConfig}
use tembo.Operator.Types.AppServices.{AppService, ResourceRequirements}
use tembo.Operator.Types.Backups.{
  Backup, ServiceAccountTemplate, DedicatedNetworking, Restore, default_backup,
}

pub record TrunkInstall : Type 0 where
  pub name : String
  pub version : Option String

pub record TrunkInstallStatus : Type 0 where
  pub name : String
  pub version : Option String
  pub error : Bool
  pub loading : Bool
  pub error_message : Option String
  pub installed_to_pods : Option (List String)

pub record ExtensionInstallLocation : Type 0 where
  pub enabled : Bool
  pub database : String
  pub version : Option String
  pub schema : Option String

pub record Extension : Type 0 where
  pub name : String
  pub description : Option String
  pub locations : List ExtensionInstallLocation

pub record ExtensionInstallLocationStatus : Type 0 where
  pub database : String
  pub schema : Option String
  pub version : Option String
  pub enabled : Option Bool
  pub error : Option Bool
  pub error_message : Option String

pub record ExtensionStatus : Type 0 where
  pub name : String
  pub description : Option String
  pub locations : List ExtensionInstallLocationStatus

-- `impl From<TrunkInstallStatus> for TrunkInstall`
unfoldable pub to_trunk_install : TrunkInstallStatus → TrunkInstall
to_trunk_install status = record { name = status.name; version = status.version }

-- `impl From<ExtensionInstallLocationStatus> for ExtensionInstallLocation`
unfoldable pub to_location : ExtensionInstallLocationStatus → ExtensionInstallLocation
to_location status = record {
  enabled = unwrap_or false status.enabled;
  database = status.database;
  version = status.version;
  schema = status.schema;
}

-- `impl From<ExtensionStatus> for Extension`
unfoldable pub to_extension : ExtensionStatus → Extension
unfolding to_location
to_extension status = record {
  name = status.name;
  description = status.description;
  locations = map to_location status.locations;
}

pub record Stack : Type 0 where
  pub name : String
  pub postgres_config : Option (List PgConfig)

-- `QueryConfig` as the text of its JSON value.
pub record PostgresMetrics : Type 0 where
  pub image : String
  pub enabled : Bool
  pub queries : Option String

pub record ConnectionPooler : Type 0 where
  pub enabled : Bool

pub record CoreDbSpec : Type 0 where
  pub replicas : ℕ
  pub resources : ResourceRequirements
  pub storage : String
  pub image : String
  pub extra_domains_rw : Option (List String)
  pub metrics : Option PostgresMetrics
  pub connection_pooler : ConnectionPooler
  pub extensions : List Extension
  pub trunk_installs : List TrunkInstall
  pub stop : Bool
  pub stack : Option Stack
  pub runtime_config : Option (List PgConfig)
  pub override_configs : Option (List PgConfig)
  pub backup : Backup
  pub service_account_template : ServiceAccountTemplate
  pub dedicated_networking : Option DedicatedNetworking
  pub restore : Option Restore
  pub storage_class : Option String
  pub app_services : Option (List AppService)

-- The derived `Default`.
abbrev pub default_spec : CoreDbSpec
default_spec = record {
  replicas = 0;
  resources = record { limits = none; requests = none };
  storage = "";
  image = "";
  extra_domains_rw = none;
  metrics = none;
  connection_pooler = record { enabled = false };
  extensions = [];
  trunk_installs = [];
  stop = false;
  stack = none;
  runtime_config = none;
  override_configs = none;
  backup = default_backup;
  service_account_template = record { metadata = none };
  dedicated_networking = none;
  restore = none;
  storage_class = none;
  app_services = none;
}

pub record CoreDbStatus : Type 0 where
  pub running : Bool
  pub extensions_updating : Bool
  pub extensions : Option (List ExtensionStatus)
  pub trunk_installs : Option (List TrunkInstallStatus)
  pub storage : Option String
  pub resources : Option ResourceRequirements
  pub runtime_config : Option (List PgConfig)
  pub first_recoverability_time : Option ℕ
  pub pg_postmaster_start_time : Option ℕ
  pub last_fully_reconciled_at : Option ℕ
  pub last_archiver_status : Option ℕ

-- The derived `Default`.
abbrev pub default_status : CoreDbStatus
default_status = record {
  running = false;
  extensions_updating = false;
  extensions = none;
  trunk_installs = none;
  storage = none;
  resources = none;
  runtime_config = none;
  first_recoverability_time = none;
  pg_postmaster_start_time = none;
  last_fully_reconciled_at = none;
  last_archiver_status = none;
}

pub record CoreDb : Type 0 where
  pub name : Option String
  pub namespace : Option String
  pub annotations : Option (BTreeMap String)
  pub spec : CoreDbSpec
  pub status : Option CoreDbStatus
