-- ===== src/Operator/Spec/Names.antt =====
-- Which configurations come out of the layers (tembo-operator/src/apis/coredb_types.rs).
use tembo.Prelude.{
  String, ◌≡◌, ◌∙◌, ap, sym, refl, Bool, true, false, Option, none, some, List, [], ◌∷◌, arith,
  if◌then◌else◌, eq_refl, unwrap_or, list_contains, All, str_lt,
}
use tembo.Prelude.BTreeMap
use tembo.Prelude.BTreeMap.{BTreeMap, IsOrdered}
use tembo.Prelude.Sort.{IsSorted}
use tembo.Prelude.Result.{ok, >>=-ok, ok-injective}
use tembo.Operator.Params.Names.{multi_val_configs, disallowed_configs}
use tembo.Operator.Params.Value.{PgConfig, find_config}
use tembo.Operator.Types.{CoreDbSpec}
use tembo.Operator.Spec.{
  assemble, config_of_stack, runtime_layer, merge_multivals, none_if_empty, get_pg_configs,
  get_pg_config_by_name,
}
use tembo.Operator.Spec.Layers.{
  layers, find_last, find_config-assemble, assemble-IsOrdered, IsKeyed, assemble-IsKeyed,
}

values_of_none_if_empty :
    (m : BTreeMap PgConfig) → unwrap_or [] (none_if_empty m) ≡ BTreeMap.values m
values_of_none_if_empty [] = refl
values_of_none_if_empty (e ∷ m) = refl

-- What a successful answer is made of.
pub record IsAssembled (spec : CoreDbSpec) (requires_load : BTreeMap String)
    (o : Option (List PgConfig)) : Type 0 where
  pub runtime : List PgConfig
  pub merged : List PgConfig
  pub runtime_ok : runtime_layer spec requires_load ≡ ok runtime
  pub merged_ok : merge_multivals (config_of_stack spec.stack) runtime multi_val_configs ≡ ok merged
  pub same :
      unwrap_or [] o
      ≡ BTreeMap.values (
          assemble (config_of_stack spec.stack) runtime merged (unwrap_or [] spec.override_configs))

pub get_pg_configs-IsAssembled :
    (spec : CoreDbSpec) (requires_load : BTreeMap String) (o : Option (List PgConfig))
    → get_pg_configs spec requires_load ≡ ok o
    → IsAssembled spec requires_load o
unfolding get_pg_configs
get_pg_configs-IsAssembled spec requires_load o h =
    let (runtime, e, h') = >>=-ok (runtime_layer spec requires_load) _ h in
    let (merged, f, h'') =
      >>=-ok (merge_multivals (config_of_stack spec.stack) runtime multi_val_configs) _ h' in
    record {
      runtime = runtime;
      merged = merged;
      runtime_ok = e;
      merged_ok = f;
      same =
          ap (unwrap_or []) (sym (ok-injective h''))
          ∙ values_of_none_if_empty (
              assemble (config_of_stack spec.stack) runtime merged
                (unwrap_or [] spec.override_configs));
    }

is_absent :
    (P : String → Bool) (l : List PgConfig)
    → ((name : String) → P name ≡ true → find_config name l ≡ none)
    → All (λ c. P c.name ≡ false) l
unfolding find_config
is_absent P [] h = tt
is_absent P (c ∷ cs) h =
    (ground (arith, h c.name, eq_refl c.name), is_absent P cs (λ name p. ground (arith, h name p)))

abbrev pub by_name : PgConfig → PgConfig → Bool
by_name c d = str_lt c.name d.name

above-by_name :
    (k : String) (m : BTreeMap PgConfig)
    → IsKeyed m
    → All (λ e. str_lt k e.0 ≡ true) m
    → All (λ c. str_lt k c.name ≡ true) (BTreeMap.values m)
above-by_name k [] h a = tt
above-by_name k ((j, c) ∷ m) (h, hs) (a, as') = (rw h a, above-by_name k m hs as')

pub values-IsSorted :
    (m : BTreeMap PgConfig) → IsKeyed m → IsOrdered m → IsSorted by_name (BTreeMap.values m)
values-IsSorted [] h o = tt
values-IsSorted ((k, c) ∷ m) (h, hs) (a, o) =
    (rw h (above-by_name k m hs a), values-IsSorted m hs o)

-- In what `get_pg_configs` answers no name is one of those that are not allowed, and the names are
-- strictly increasing, so that none stands there twice.
pub get_pg_configs-names :
    (spec : CoreDbSpec) (requires_load : BTreeMap String) (l : List PgConfig)
    → get_pg_configs spec requires_load ≡ ok (some l)
    → All (λ c. list_contains disallowed_configs c.name ≡ false) l × IsSorted by_name l
get_pg_configs-names spec requires_load l h =
    let a = get_pg_configs-IsAssembled spec requires_load (some l) h in
    rw a.same (
      is_absent (list_contains disallowed_configs) _
          (λ name p. find_config-assemble _ a.runtime a.merged _ name ∙ rw p),
      values-IsSorted _ (assemble-IsKeyed _ a.runtime a.merged _)
          (assemble-IsOrdered _ a.runtime a.merged _),
    )

-- When `get_pg_configs` succeeds, a name has the value that the last of the layers which sets it
-- gives it: the default settings, the stack, the runtime configuration with the libraries of the
-- extensions, the merged lists, the overrides. A name that is not allowed has none.
pub get_pg_config_by_name-layers :
    (spec : CoreDbSpec) (requires_load : BTreeMap String) (o : Option (List PgConfig))
    (name : String)
    → get_pg_configs spec requires_load ≡ ok o
    → (runtime merged : List PgConfig) × (runtime_layer spec requires_load ≡ ok runtime)
      × (merge_multivals (config_of_stack spec.stack) runtime multi_val_configs ≡ ok merged)
      × (get_pg_config_by_name spec name requires_load
          ≡ ok (
              if list_contains disallowed_configs name
              then none
              else find_last name (
                  layers
                    (config_of_stack spec.stack)
                    runtime
                    merged
                    (unwrap_or [] spec.override_configs))))
unfolding get_pg_config_by_name
get_pg_config_by_name-layers spec requires_load o name h =
    let a = get_pg_configs-IsAssembled spec requires_load o h in
    (
      a.runtime,
      a.merged,
      a.runtime_ok,
      a.merged_ok,
      rw (h, a.same) (rw (find_config-assemble (config_of_stack spec.stack) a.runtime a.merged)),
    )
