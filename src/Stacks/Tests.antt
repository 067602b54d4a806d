-- ===== src/Stacks/Tests.antt =====
-- The merge of configurations at concrete inputs (tembo-stacks/src/apps/app.rs).
use tembo.Prelude.{◌≡◌, String, List, [], ◌∷◌}
use tembo.Prelude.Sort.{IsSorted}
use tembo.Operator.Params.Value.{PgConfig, single, find_config}
use tembo.Operator.Spec.Layers.{find_last, or_else}
use tembo.Operator.Spec.Names.{by_name}
use tembo.Stacks.Apps.{merge_pg_configs, merge_pg_configs_lem}

abbrev instance_configs : List PgConfig
instance_configs =
    record { name = "work_mem"; value = single "8MB" }
    ∷ record { name = "max_connections"; value = single "100" }
    ∷ []

abbrev app_configs : List PgConfig
app_configs = record { name = "work_mem"; value = single "16MB" } ∷ []

merge_pg_configs_lem_example :
    ((name : String)
      → find_config name (merge_pg_configs instance_configs app_configs)
        ≡ or_else (find_last name app_configs) (find_last name instance_configs))
    × IsSorted by_name (merge_pg_configs instance_configs app_configs)
merge_pg_configs_lem_example = merge_pg_configs_lem instance_configs app_configs
