-- ===== src/Operator/Cnpg/Postgres/Parameters.antt =====
-- The parameters of the cluster are the configuration of the instance
-- (tembo-operator/src/cloudnativepg/cnpg.rs and apis/coredb_types.rs).
use mathlib.Core.Option
use tembo.Prelude.{
  ◌≡◌, refl, sym, ap, ◌∙◌, String, Bool, true, false, Bool-cases, Option, none, some, List, [], ◌∷◌,
  All, arith, eq_iff, ◌==◌, unwrap_or, if◌then◌else◌, str_lt_irrefl, inl, inr,
}
use tembo.Prelude.Result.{ok, >>=-ok, ok-injective}
use tembo.Prelude.Sort.{IsSorted}
use tembo.Prelude.BTreeMap.{BTreeMap, get, get-insert}
use tembo.Operator.Params.Value.{PgConfig, find_config, display}
use tembo.Operator.Types.{CoreDbSpec}
use tembo.Operator.Spec.{get_pg_configs, get_pg_config_by_name, shared_preload_libraries}
use tembo.Operator.Spec.Layers.{find_last}
use tembo.Operator.Spec.Names.{by_name, get_pg_configs-names}
use tembo.Operator.Cnpg.Postgres.{
  PostgresConfig, parameters_of, split_configs, unless_empty, cnpg_postgres_config,
}

-- What a configuration is written as.
abbrev pub written : Option PgConfig → Option String
written = Option.map (λ cfg. display cfg.value)

abbrev or_text : Option String → Option String → Option String
or_text none o = o
or_text (some s) o = some s

-- The configuration that is found last, with one more in front.
abbrev one_more : PgConfig → Option PgConfig → Bool → Option PgConfig
one_more cfg later same = elim later [ some d ↦ some d | none ↦ if same then some cfg else none ]

kept :
    (cfg : PgConfig) (before : Option String) (later : Option PgConfig) (same : Bool)
    → same ≡ false
    → or_text (written later) before ≡ or_text (written (one_more cfg later same)) before
kept cfg before (some d) same h = refl
kept cfg before none true h = cc
kept cfg before none false h = refl

added :
    (cfg : PgConfig) (before : Option String) (later : Option PgConfig) (same : Bool)
    → or_text (written later) (if same then some (display cfg.value) else before)
      ≡ or_text (written (one_more cfg later same)) before
added cfg before (some d) same = refl
added cfg before none true = refl
added cfg before none false = refl

module _ (name : String) (is_other : (name == shared_preload_libraries) ≡ false) where
  get-parameters_of :
      (cfgs : List PgConfig) (m : BTreeMap String)
      → get name (parameters_of cfgs m) ≡ or_text (written (find_last name cfgs)) (get name m)
  unfolding parameters_of find_last
  get-parameters_of [] m = refl
  get-parameters_of (cfg ∷ cfgs) m = elim (Bool-cases (cfg.name == shared_preload_libraries)) [
    | inl e ↦
        rw (e, get-parameters_of cfgs m)
          (kept cfg (get name m) (find_last name cfgs) (cfg.name == name)
            (ground (arith, eq_iff cfg.name name)))
    | inr e ↦
        rw (e, get-parameters_of cfgs _, get-insert)
          (added cfg (get name m) (find_last name cfgs) (cfg.name == name))
  ]

  none_above :
      (cfg : PgConfig) (cfgs : List PgConfig)
      → All (λ d. by_name cfg d ≡ true) cfgs
      → cfg.name ≡ name
      → find_last name cfgs ≡ none
  unfolding find_last
  none_above cfg [] h e = refl
  none_above cfg (d ∷ ds) (h, hs) e =
      ground (arith, none_above cfg ds hs e, eq_iff d.name name, str_lt_irrefl name)

  -- Where no name stands twice, the last is the first.
  find_last-sorted :
      (cfgs : List PgConfig) → IsSorted by_name cfgs → find_last name cfgs ≡ find_config name cfgs
  unfolding find_last find_config
  find_last-sorted [] h = refl
  find_last-sorted (cfg ∷ cfgs) (h, hs) =
      ground (arith, find_last-sorted cfgs hs, none_above cfg cfgs h, eq_iff cfg.name name)

parameters_unless_empty : (m : BTreeMap String) → unwrap_or [] (unless_empty m) ≡ m
parameters_unless_empty [] = refl
parameters_unless_empty (e ∷ m) = refl

or_none : (name : String) (o : Option String) → or_text o (get name []) ≡ o
unfolding get
or_none name none = refl
or_none name (some s) = refl

-- When the configuration of the cluster is made, each parameter but the list of preloaded
-- libraries has in it the value that `get_pg_config_by_name` answers for the instance, written as
-- a text, and a parameter that the instance does not set is not in it.
pub cnpg_postgres_config-parameters :
    (spec : CoreDbSpec) (requires_load : BTreeMap String) (config : PostgresConfig) (name : String)
    → cnpg_postgres_config spec requires_load ≡ ok config
    → (name == shared_preload_libraries) ≡ false
    → (found : Option PgConfig) × (get_pg_config_by_name spec name requires_load ≡ ok found)
      × (get name (unwrap_or [] config.postgres_parameters) ≡ written found)
unfolding cnpg_postgres_config get_pg_config_by_name find_config get
cnpg_postgres_config-parameters spec requires_load config name h is_other =
    let (cfgs, e, f) = >>=-ok (get_pg_configs spec requires_load) _ h in
    (
      find_config name (unwrap_or [] cfgs),
      rw e refl,
      ap (λ c. get name (unwrap_or [] c.postgres_parameters)) (sym (ok-injective f))
          ∙ same_values cfgs e,
    )
  where
    same_values :
        (cfgs : Option (List PgConfig))
        → get_pg_configs spec requires_load ≡ ok cfgs
        → get name (unwrap_or [] (split_configs cfgs).postgres_parameters)
          ≡ written (find_config name (unwrap_or [] cfgs))
    same_values none e = refl
    same_values (some cfgs) e =
        ap (get name) (parameters_unless_empty (parameters_of cfgs []))
        ∙ get-parameters_of name is_other cfgs []
        ∙ or_none name (written (find_last name cfgs))
        ∙ ap written
            (find_last-sorted name is_other cfgs (get_pg_configs-names spec requires_load cfgs e).1)
