-- ===== src/Stacks/Apps.antt =====
-- The merge of the configurations of an application into those of the instance
-- (tembo-stacks/src/apps/app.rs).
use tembo.Prelude.{◌≡◌, ap, ◌∙◌, Option, none, some, List, [], ◌++◌, String}
use tembo.Prelude.BTreeMap
use tembo.Prelude.BTreeMap.{BTreeMap}
use tembo.Prelude.Sort.{IsSorted}
use tembo.Operator.Params.Value.{PgConfig, find_config}
use tembo.Operator.Spec.{insert_all}
use tembo.Operator.Spec.Layers.{
  find_last, or_else, or_else-none, get-insert_all, insert_all-IsKeyed, insert_all-IsOrdered,
  find_config-values,
}
use tembo.Operator.Spec.Names.{by_name, values-IsSorted}

unfoldable pub merge_options {ℓ} :
    {A : Type ℓ} → Option (List A) → Option (List A) → Option (List A)
merge_options (some vec1) (some vec2) = some (vec1 ++ vec2)
merge_options (some vec) none = some vec
merge_options none (some vec) = some vec
merge_options none none = none

unfoldable pub merge_pg_configs : List PgConfig → List PgConfig → List PgConfig
merge_pg_configs cfg1 cfg2 = BTreeMap.values (insert_all cfg2 (insert_all cfg1 []))

-- The merge has for each name the last configuration of the second list, and where that has none
-- the last of the first; its names are strictly increasing, so that none stands there twice.
pub merge_pg_configs_lem :
    (cfg1 cfg2 : List PgConfig)
    → ((name : String)
        → find_config name (merge_pg_configs cfg1 cfg2)
          ≡ or_else (find_last name cfg2) (find_last name cfg1))
      × IsSorted by_name (merge_pg_configs cfg1 cfg2)
unfolding merge_pg_configs BTreeMap.get
merge_pg_configs_lem cfg1 cfg2 =
    let keyed = insert_all-IsKeyed cfg2 (insert_all cfg1 []) (insert_all-IsKeyed cfg1 [] tt) in
    (
      λ name.
          find_config-values name (insert_all cfg2 (insert_all cfg1 [])) keyed
          ∙ get-insert_all name cfg2 (insert_all cfg1 [])
          ∙ ap (or_else (find_last name cfg2))
              (get-insert_all name cfg1 [] ∙ or_else-none (find_last name cfg1)),
      values-IsSorted _ keyed
          (insert_all-IsOrdered cfg2 (insert_all cfg1 []) (insert_all-IsOrdered cfg1 [] tt)),
    )
