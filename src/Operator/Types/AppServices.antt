-- ===== src/Operator/Types/AppServices.antt =====
-- The applications that run beside an instance (tembo-operator/src/app_service/types.rs). Of the
-- types of `k8s_openapi` there are the fields that the program sets or reads; a volume or a mount
-- that the user gives is kept as the text of its JSON value.
use tembo.Prelude.{ℕ, String, Bool, Option, some, List, [], ◌∷◌}
use tembo.Prelude.BTreeMap.{BTreeMap}
use tembo.Prelude.Int.{ℤ}
use tembo.Operator.Types.Backups.{SecretKey}

abbrev pub component_name : String
component_name = "appService"

pub data Volume : Type 0 where
  secret_volume : (name secret_name : String) → Volume
  given_volume : (json : String) → Volume

pub data VolumeMount : Type 0 where
  mount_at : (name mount_path : String) (read_only : Bool) → VolumeMount
  given_mount : (json : String) → VolumeMount

pub record StorageConfig : Type 0 where
  pub volumes : Option (List Volume)
  pub volume_mounts : Option (List VolumeMount)

pub record AppMetrics : Type 0 where
  pub port : ℕ
  pub path : String

pub data EnvVarRef : Type 0 where
  read_only_connection read_write_connection : EnvVarRef

-- `EnvVar` of the CoreDb resource.
pub record AppEnvVar : Type 0 where
  pub name : String
  pub value : Option String
  pub value_from_platform : Option EnvVarRef

-- `EnvVar` of a container.
pub record EnvVar : Type 0 where
  pub name : String
  pub value : Option String
  pub value_from : Option SecretKey

pub data IngressType : Type 0 where
  http tcp : IngressType

pub record Routing : Type 0 where
  pub port : ℕ
  pub ingress_path : Option String
  pub middlewares : Option (List String)
  pub entry_points : Option (List String)
  pub ingress_type : Option IngressType

abbrev pub default_ingress_type : Option IngressType
default_ingress_type = some http

abbrev pub default_entry_points : Option (List String)
default_entry_points = some ("websecure" ∷ [])

pub record Probe : Type 0 where
  pub path : String
  pub port : ℤ
  pub initial_delay_seconds : ℕ

pub record Probes : Type 0 where
  pub readiness : Probe
  pub liveness : Probe

pub record HeaderConfig : Type 0 where
  pub name : String
  pub config : BTreeMap String

pub record StripPrefixConfig : Type 0 where
  pub name : String
  pub config : List String

pub record ReplacePathRegexConfigType : Type 0 where
  pub regex : String
  pub replacement : String

pub record ReplacePathRegexConfig : Type 0 where
  pub name : String
  pub config : ReplacePathRegexConfigType

pub data Middleware : Type 0 where
  custom_request_headers : HeaderConfig → Middleware
  strip_prefix : StripPrefixConfig → Middleware
  replace_path_regex : ReplacePathRegexConfig → Middleware

-- `k8s_openapi`'s, as the CoreDb resource writes it.
pub record ResourceRequirements : Type 0 where
  pub limits : Option (BTreeMap String)
  pub requests : Option (BTreeMap String)

abbrev pub default_resources : ResourceRequirements
default_resources = record {
  limits = some (("cpu", "400m") ∷ ("memory", "256Mi") ∷ []);
  requests = some (("cpu", "100m") ∷ ("memory", "256Mi") ∷ []);
}

pub record AppService : Type 0 where
  pub name : String
  pub image : String
  pub args : Option (List String)
  pub command : Option (List String)
  pub env : Option (List AppEnvVar)
  pub resources : ResourceRequirements
  pub probes : Option Probes
  pub metrics : Option AppMetrics
  pub middlewares : Option (List Middleware)
  pub routing : Option (List Routing)
  pub storage : Option StorageConfig
