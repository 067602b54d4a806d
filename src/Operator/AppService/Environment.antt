-- ===== src/Operator/AppService/Environment.antt =====
-- What an application's container finds in its environment (the part of `generate_deployment` of
-- tembo-operator/src/app_service/manager.rs that fills the manager, and `FORWARDED_ENV_VARS`).
pub mod Found
use Prim.Native.String
use tembo.Prelude.{
  String, Option, none, some, List, [], ◌∷◌, ◌++◌, map, members, cons_to, if◌then◌else◌,
}
use tembo.Prelude.Text.{concat, starts_with}
use tembo.Prelude.Text.Replace.{replace, uppercase}
use tembo.Prelude.BTreeMap
use tembo.Prelude.BTreeMap.{BTreeMap}
use tembo.Operator.Types.AppServices.{
  AppEnvVar, EnvVar, EnvVarRef, read_only_connection, read_write_connection, AppService,
}
use tembo.Operator.AppService.EnvVars.{EnvVarManager, new, set_all, Entries}

-- `FORWARDED_ENV_VARS`, of the variables of the operator's own process. A variable that is not
-- Unicode, which is `none`, makes `std::env::vars` panic.
unfoldable pub forwarded_env_vars : List (Option (String × String)) → Option (List EnvVar)
forwarded_env_vars [] = some []
forwarded_env_vars (none ∷ vars) = none
forwarded_env_vars (some (key, value) ∷ vars) =
    let rest = forwarded_env_vars vars in
    let new_key = replace "TEMBO_APPS_DEFAULT_ENV_" "TEMBO_" key in
    if starts_with "TEMBO_APPS_DEFAULT_ENV_" key
    then cons_to (record { name = new_key; value = some value; value_from = none }) rest
    else rest

abbrev pub plain : String → String → EnvVar
plain name value = record { name = name; value = some value; value_from = none }

abbrev pub from_secret : String → String → String → EnvVar
from_secret name secret_name key = record {
  name = name;
  value = none;
  value_from = some (record { key = key; name = secret_name });
}

abbrev pub apps_connection_secret_name : String → String
apps_connection_secret_name coredb_name = String.◌++◌ coredb_name "-apps"

-- The name of an instance with a suffix, as the name of a variable.
unfoldable pub conn : String → String → String
conn coredb_name suffix = String.◌++◌ (replace "-" "_" (uppercase coredb_name)) suffix

-- The variables of the connections, each with the key that it is set under.
unfoldable pub connections : String → Entries
connections coredb_name =
    let secret_name = apps_connection_secret_name coredb_name in
    let r_conn = conn coredb_name "_R_CONNECTION" in
    let ro_conn = conn coredb_name "_RO_CONNECTION" in
    let rw_conn = conn coredb_name "_RW_CONNECTION" in
    (rw_conn, from_secret r_conn secret_name "r_uri")
    ∷ (ro_conn, from_secret ro_conn secret_name "ro_uri")
    ∷ (rw_conn, from_secret rw_conn secret_name "rw_uri")
    ∷ []

-- The value of an annotation, where there is one.
unfoldable pub annotated : String → Option String → Entries
annotated name none = []
annotated name (some value) = (name, plain name value) ∷ []

abbrev pub by_name : EnvVar → String × EnvVar
by_name v = (v.name, v)

abbrev pub secret_key : EnvVarRef → String
secret_key read_only_connection = "ro_uri"
secret_key read_write_connection = "rw_uri"

-- A variable that the user gives; one without a value is only logged.
unfoldable pub user_var : String → AppEnvVar → List EnvVar
user_var secret_name env = elim env.value [
  | some value ↦ plain env.name value ∷ []
  | none ↦ elim env.value_from_platform [
    | some e ↦ from_secret env.name secret_name (secret_key e) ∷ []
    | none ↦ []
  ]
]

unfoldable pub user_vars : String → List AppEnvVar → List EnvVar
user_vars secret_name [] = []
user_vars secret_name (env ∷ envs) = user_var secret_name env ++ user_vars secret_name envs

-- What the platform sets, from the annotations on.
unfoldable pub platform : String → BTreeMap String → Entries
platform namespace annotations =
    annotated "TEMBO_INSTANCE_ID" (BTreeMap.get "tembo.io/instance_id" annotations)
    ++ (annotated "TEMBO_ORG_ID" (BTreeMap.get "tembo.io/organization_id" annotations)
        ++ ("NAMESPACE", plain "NAMESPACE" namespace) ∷ [])

-- The sets that the manager gets, in their order.
unfoldable pub sets : List EnvVar → AppService → String → String → BTreeMap String → Entries
unfolding connections
sets forwarded appsvc coredb_name namespace annotations =
    connections coredb_name
    ++ (platform namespace annotations
        ++ (map by_name forwarded
            ++ map by_name
                (user_vars (apps_connection_secret_name coredb_name) (members appsvc.env))))

-- `env_vars`
unfoldable pub env_vars :
    List EnvVar → AppService → String → String → BTreeMap String → Option EnvVarManager
env_vars forwarded appsvc coredb_name namespace annotations =
    set_all (sets forwarded appsvc coredb_name namespace annotations) new
