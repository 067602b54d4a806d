-- ===== src/Operator/Spec/Tests.antt =====
-- A test of `get_pg_configs`, and the theorems at concrete inputs
-- (tembo-operator/src/apis/coredb_types.rs).
use tembo.Prelude.{
  String, ◌≡◌, refl, inl, true, false, none, some, List, [], ◌∷◌, All, list_contains, str_lt,
  if◌then◌else◌, unwrap_or,
}
use tembo.Prelude.BTreeSet
use tembo.Prelude.BTreeMap
use tembo.Prelude.BTreeMap.{BTreeMap}
use tembo.Prelude.Sort.{IsSorted}
use tembo.Prelude.Result.{ok}
use tembo.Operator.Params.Names.{multi_val_configs, disallowed_configs}
use tembo.Operator.Params.Value.{single, multiple, PgConfig, merge_pg_configs}
use tembo.Operator.Params.Merge.{value_has}
use tembo.Operator.Types.{default_spec, Extension, CoreDbSpec}
use tembo.Operator.Spec.{
  get_pg_configs, get_pg_config_by_name, runtime_layer, merge_multivals, assemble, insert_all,
  remove_all, libraries_from, require_library, replace_or_push, config_of_stack,
  shared_preload_libraries,
}
use tembo.Operator.Spec.Layers.{layers, find_last}
use tembo.Operator.Spec.Names.{by_name, get_pg_configs-names, get_pg_config_by_name-layers}
use tembo.Operator.Spec.Preload.{get_pg_config_by_name-library}

abbrev cron_on : Extension
cron_on = record {
  name = "pg_cron";
  description = none;
  locations = record { enabled = true; database = "postgres"; version = none; schema = none } ∷ [];
}

abbrev required : BTreeMap String
required = ("pg_cron", "pg_cron") ∷ []

-- A stack with a name that is not allowed, and with a library.
abbrev spec : CoreDbSpec
spec = record default_spec {
  extensions = cron_on ∷ [];
  trunk_installs = [];
  stop = false;
  stack = some (record {
    name = "tembo";
    postgres_config = some (
        record { name = "shared_preload_libraries"; value = multiple ("citus" ∷ []) }
        ∷ record { name = "port"; value = single "1" }
        ∷ []);
  });
  runtime_config = some (record { name = "work_mem"; value = single "8MB" } ∷ []);
  override_configs = some (record { name = "work_mem"; value = single "9MB" } ∷ []);
}

abbrev answer : List PgConfig
answer =
    record { name = "shared_preload_libraries"; value = multiple ("citus" ∷ "pg_cron" ∷ []) }
    ∷ record { name = "ssl_min_protocol_version"; value = single "TLSv1.2" }
    ∷ record { name = "work_mem"; value = single "9MB" }
    ∷ []

get_pg_configs_test : get_pg_configs spec required ≡ ok (some answer)
unfolding get_pg_configs runtime_layer merge_multivals merge_pg_configs assemble insert_all
    remove_all libraries_from require_library replace_or_push BTreeSet.insert BTreeSet.append
    BTreeMap.insert BTreeMap.remove str_lt
get_pg_configs_test = refl

get_pg_configs-names_example :
    All (λ c. list_contains disallowed_configs c.name ≡ false) answer × IsSorted by_name answer
get_pg_configs-names_example = get_pg_configs-names spec required answer get_pg_configs_test

get_pg_config_by_name-layers_example :
    (runtime merged : List PgConfig) × (runtime_layer spec required ≡ ok runtime)
    × (merge_multivals (config_of_stack spec.stack) runtime multi_val_configs ≡ ok merged)
    × (get_pg_config_by_name spec "work_mem" required
        ≡ ok (
            if list_contains disallowed_configs "work_mem"
            then none
            else find_last "work_mem" (
                layers
                  (config_of_stack spec.stack)
                  runtime
                  merged
                  (unwrap_or [] spec.override_configs))))
get_pg_config_by_name-layers_example =
    get_pg_config_by_name-layers spec required (some answer) "work_mem" get_pg_configs_test

no_override : find_last shared_preload_libraries (unwrap_or [] spec.override_configs) ≡ none
unfolding find_last
no_override = refl

cron_required : BTreeMap.get cron_on.name required ≡ some "pg_cron"
unfolding BTreeMap.get
cron_required = refl

get_pg_config_by_name-library_example :
    (c : PgConfig) × (get_pg_config_by_name spec shared_preload_libraries required ≡ ok (some c))
    × (value_has "pg_cron" c.value ≡ true)
get_pg_config_by_name-library_example =
    get_pg_config_by_name-library spec required (some answer) cron_on "pg_cron" get_pg_configs_test
      (inl refl) refl cron_required no_override
