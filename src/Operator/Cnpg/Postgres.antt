-- ===== src/Operator/Cnpg/Postgres.antt =====
-- The configuration of Postgres in the cluster object
-- (tembo-operator/src/cloudnativepg/cnpg.rs).
pub mod Parameters
use tembo.Prelude.{
  String, Bool, true, false, Option, none, some, List, [], ◌∷◌, ◌++◌, ◌==◌, if◌then◌else◌,
}
use tembo.Prelude.Result.{Result, ok, err, ◌>>=◌}
use tembo.Prelude.BTreeMap.{BTreeMap, insert}
use tembo.Operator.Params.Value.{PgConfig, MergeError, display}
use tembo.Operator.Types.{CoreDbSpec}
use tembo.Operator.Spec.{get_pg_configs, shared_preload_libraries}

pub record PostgresConfig : Type 0 where
  pub postgres_parameters : Option (BTreeMap String)
  pub shared_preload_libraries : Option (List String)

-- The parameters that the loop over the configurations collects.
unfoldable pub parameters_of : List PgConfig → BTreeMap String → BTreeMap String
unfolding insert display
parameters_of [] parameters = parameters
parameters_of (cfg ∷ cfgs) parameters =
    let added = insert cfg.name (display cfg.value) parameters in
    parameters_of cfgs (if cfg.name == shared_preload_libraries then parameters else added)

-- And the libraries.
unfoldable pub libraries_of : List PgConfig → List String
unfolding display
libraries_of [] = []
libraries_of (cfg ∷ cfgs) =
    let rest = libraries_of cfgs in
    if cfg.name == shared_preload_libraries then display cfg.value ∷ rest else rest

abbrev pub unless_empty {a} : {A : Type a} → List A → Option (List A)
unless_empty [] = none
unless_empty (x ∷ xs) = some (x ∷ xs)

abbrev pub split_configs : Option (List PgConfig) → PostgresConfig
split_configs none = record { postgres_parameters = none; shared_preload_libraries = none }
split_configs (some cfgs) = record {
  postgres_parameters = unless_empty (parameters_of cfgs []);
  shared_preload_libraries = unless_empty (libraries_of cfgs);
}

unfoldable pub cnpg_postgres_config :
    CoreDbSpec → BTreeMap String → Result MergeError PostgresConfig
unfolding parameters_of libraries_of
cnpg_postgres_config spec requires_load = do
  pg_configs ← get_pg_configs spec requires_load
  ok (split_configs pg_configs)
