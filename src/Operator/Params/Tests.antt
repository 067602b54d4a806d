-- ===== src/Operator/Params/Tests.antt =====
-- Tests of the parameter values, and the theorems at concrete inputs
-- (tembo-operator/src/apis/postgres_parameters.rs).
use tembo.Prelude.{◌≡◌, refl, arith, true, some, [], ◌∷◌, trim, list_contains, str_lt}
use tembo.Prelude.BTreeSet
use tembo.Prelude.Result.{ok}
use tembo.Operator.Params.Names.{multi_val_configs}
use tembo.Operator.Params.Value.{single, multiple, PgConfig, display, merge_pg_configs}
use tembo.Operator.Params.Wire.{parse, from_str, visit_map, serialize_config}
use tembo.Operator.Params.Wire.Roundtrip.{Fits, visit_map-serialize_config}

-- `test_pg_config`: the libraries in the order of their priorities.
display_test : display (parse "pg_cron,pg_stat_statements") ≡ "pg_stat_statements,pg_cron"
unfolding display parse str_lt
display_test = refl

from_str_test : from_str " a , b" ≡ multiple ("a" ∷ "b" ∷ [])
unfolding from_str str_lt
from_str_test = refl

abbrev cron : PgConfig
cron = record { name = "shared_preload_libraries"; value = multiple ("pg_cron" ∷ []) }

abbrev stats : PgConfig
stats = record { name = "shared_preload_libraries"; value = multiple ("pg_stat_statements" ∷ []) }

abbrev both : PgConfig
both = record {
  name = "shared_preload_libraries";
  value = multiple ("pg_cron" ∷ "pg_stat_statements" ∷ []);
}

abbrev text : PgConfig
text = record { name = "search_path"; value = single "public" }

merged : merge_pg_configs (cron ∷ []) (stats ∷ []) "shared_preload_libraries" ≡ ok (some both)
unfolding merge_pg_configs BTreeSet.append BTreeSet.insert str_lt
merged = refl

both-Fits : Fits both.name both.value
unfolding list_contains str_lt trim
both-Fits = (refl, ((refl, tt), (tt, tt)), (ground arith, (ground arith, tt)), (refl, (refl, tt)))

visit_map-serialize_config_example : visit_map (serialize_config both) ≡ ok both
visit_map-serialize_config_example = visit_map-serialize_config both both-Fits

search_path_listed : list_contains multi_val_configs "search_path" ≡ true
unfolding list_contains
search_path_listed = refl
