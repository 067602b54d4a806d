-- ===== src/Operator/Spec.antt =====
-- `impl CoreDbSpec` (tembo-operator/src/apis/coredb_types.rs): the Postgres configuration of an
-- instance, put together from its layers.
pub mod Layers
pub mod Names
pub mod Preload
mod Tests
use tembo.Prelude.{
  String, Bool, true, false, Option, none, some, List, [], ◌∷◌, ◌++◌, ◌==◌, if◌then◌else◌, find,
  any, unwrap_or, is_some,
}
use tembo.Prelude.BTreeSet
use tembo.Prelude.BTreeSet.{BTreeSet}
use tembo.Prelude.BTreeMap
use tembo.Prelude.BTreeMap.{BTreeMap}
use tembo.Prelude.Result.{Result, ok, err, ◌>>=◌}
use tembo.Operator.Params.Names.{multi_val_configs, disallowed_configs}
use tembo.Operator.Params.Value.{
  ConfigValue, single, multiple, PgConfig, MergeError, find_config, merge_pg_configs,
}
use tembo.Operator.Types.{Extension, CoreDbSpec, Stack}

-- `TLS_MIN_VERSION`
abbrev pub tls_min_version : String
tls_min_version = "TLSv1.2"

abbrev pub shared_preload_libraries : String
shared_preload_libraries = "shared_preload_libraries"

abbrev pub with_library : Option String → BTreeSet → BTreeSet
with_library none libs = libs
with_library (some library) libs = BTreeSet.insert library libs

-- One round of the loop over the extensions: the library of one that is enabled somewhere and
-- requires LOAD.
unfoldable pub require_library : BTreeMap String → BTreeSet → Extension → BTreeSet
unfolding BTreeMap.get BTreeSet.insert
require_library requires_load libs ext =
    if any (λ l. l.enabled) ext.locations
    then with_library (BTreeMap.get ext.name requires_load) libs
    else libs

unfoldable pub libraries_from : BTreeMap String → BTreeSet → List Extension → BTreeSet
libraries_from requires_load libs [] = libs
libraries_from requires_load libs (ext ∷ exts) =
    libraries_from requires_load (require_library requires_load libs ext) exts

-- The loop that gives the first configuration of a name its new value, or adds the configuration.
unfoldable pub replace_or_push : String → PgConfig → List PgConfig → List PgConfig
replace_or_push name new [] = new ∷ []
replace_or_push name new (cfg ∷ cfgs) =
    let later = cfg ∷ replace_or_push name new cfgs in
    if cfg.name == name then record cfg { value = new.value } ∷ cfgs else later

abbrev pub with_preload : Option PgConfig → List PgConfig → List PgConfig
with_preload none cfgs = cfgs
with_preload (some new) cfgs = replace_or_push shared_preload_libraries new cfgs

abbrev pub push_some : Option PgConfig → List PgConfig → List PgConfig
push_some none cfgs = cfgs
push_some (some c) cfgs = c ∷ cfgs

-- The loop over the names with several values.
unfoldable pub merge_multivals :
    List PgConfig → List PgConfig → List String → Result MergeError (List PgConfig)
merge_multivals stack runtime [] = ok []
merge_multivals stack runtime (name ∷ names) = do
  merged ← merge_pg_configs stack runtime name
  rest ← merge_multivals stack runtime names
  ok (push_some merged rest)

-- `for p in configs { pg_configs.insert(p.name.clone(), p); }`
unfoldable pub insert_all : List PgConfig → BTreeMap PgConfig → BTreeMap PgConfig
unfolding BTreeMap.insert
insert_all [] m = m
insert_all (p ∷ ps) m = insert_all ps (BTreeMap.insert p.name p m)

-- `for key in keys { pg_configs.remove(key); }`
unfoldable pub remove_all : List String → BTreeMap PgConfig → BTreeMap PgConfig
unfolding BTreeMap.remove
remove_all [] m = m
remove_all (k ∷ ks) m = remove_all ks (BTreeMap.remove k m)

abbrev pub default_settings : List PgConfig
default_settings = record { name = "ssl_min_protocol_version"; value = single tls_min_version } ∷ []

abbrev pub config_of_stack : Option Stack → List PgConfig
config_of_stack none = []
config_of_stack (some s) = unwrap_or [] s.postgres_config

-- The runtime configuration, with the libraries that the extensions require.
unfoldable pub runtime_layer : CoreDbSpec → BTreeMap String → Result MergeError (List PgConfig)
runtime_layer spec requires_load = do
  let runtime_configs = unwrap_or [] spec.runtime_config
  let libraries = libraries_from requires_load [] spec.extensions
  merged ←
      merge_pg_configs runtime_configs
        (record { name = shared_preload_libraries; value = multiple libraries } ∷ [])
        shared_preload_libraries
  ok (with_preload merged runtime_configs)

-- The map of all layers, each over those before it, without the names that are not allowed.
unfoldable pub assemble :
    List PgConfig → List PgConfig → List PgConfig → List PgConfig → BTreeMap PgConfig
assemble stack runtime merged overrides = remove_all disallowed_configs (
    insert_all overrides
      (insert_all merged (insert_all runtime (insert_all stack (insert_all default_settings [])))))

abbrev pub none_if_empty : BTreeMap PgConfig → Option (List PgConfig)
none_if_empty [] = none
none_if_empty (e ∷ m) = some (BTreeMap.values (e ∷ m))

unfoldable pub get_pg_configs :
    CoreDbSpec → BTreeMap String → Result MergeError (Option (List PgConfig))
get_pg_configs spec requires_load = do
  let stack = config_of_stack spec.stack
  runtime ← runtime_layer spec requires_load
  merged ← merge_multivals stack runtime multi_val_configs
  ok (none_if_empty (assemble stack runtime merged (unwrap_or [] spec.override_configs)))

unfoldable pub get_pg_config_by_name :
    CoreDbSpec → String → BTreeMap String → Result MergeError (Option PgConfig)
get_pg_config_by_name spec config_name requires_load = do
  all_configs ← get_pg_configs spec requires_load
  ok (find_config config_name (unwrap_or [] all_configs))
