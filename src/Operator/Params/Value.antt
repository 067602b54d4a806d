-- ===== src/Operator/Params/Value.antt =====
-- Parameter values and their merge (tembo-operator/src/apis/postgres_parameters.rs).
use tembo.Prelude.{
  ℕ, suc, String, Bool, true, false, Option, none, some, List, [], ◌∷◌, ◌==◌, leb, str_le,
  if◌then◌else◌, find, join,
}
use mathlib.Core.Option
use tembo.Prelude.BTreeSet
use tembo.Prelude.BTreeSet.{BTreeSet}
use tembo.Prelude.Result.{Result, ok, err}
use tembo.Prelude.Sort
use tembo.Operator.Params.Names.{multi_val_configs_priority_list}

pub data ConfigValue : Type 0 where
  single : String → ConfigValue
  multiple : BTreeSet → ConfigValue

pub record PgConfig : Type 0 where
  pub name : String
  pub value : ConfigValue

pub data MergeError : Type 0 where
  single_value_not_allowed : MergeError

-- `priorities.iter().position(|x| x == a)`
unfoldable pub position : String → List String → Option ℕ
position a [] = none
position a (x ∷ xs) = let later = Option.map suc (position a xs) in if x == a then some 0 else later

-- Whether the comparator of `sort_multivalue_configs` answers `Less` or `Equal`.
abbrev pub by_index : Option ℕ → Option ℕ → Bool → Bool
by_index (some i) (some j) _ = leb i j
by_index (some _) none _ = true
by_index none (some _) _ = false
by_index none none by_name = by_name

unfoldable pub priority_le : List String → String → String → Bool
unfolding position
priority_le priorities a b = by_index (position a priorities) (position b priorities) (str_le a b)

unfoldable pub sort_multivalue_configs : List String → List String → List String
unfolding priority_le Sort.sort_by
sort_multivalue_configs values priorities = Sort.sort_by (priority_le priorities) values

unfoldable pub combine : ConfigValue → ConfigValue → Result MergeError ConfigValue
combine (single _) _ = err single_value_not_allowed
combine (multiple _) (single _) = err single_value_not_allowed
combine (multiple set1) (multiple set2) = ok (multiple (BTreeSet.append set1 set2))

-- `configs.iter().find(|config| config.name == name).cloned()`
unfoldable pub find_config : String → List PgConfig → Option PgConfig
unfolding find
find_config name configs = find (λ c. c.name == name) configs

abbrev pub merged : PgConfig → Result MergeError ConfigValue → Result MergeError (Option PgConfig)
merged c1 (ok combined_value) = ok (some (record c1 { value = combined_value }))
merged c1 (err e) = err e

-- The match of `merge_pg_configs` on the two configurations that it found.
abbrev pub merge_found : Option PgConfig → Option PgConfig → Result MergeError (Option PgConfig)
merge_found (some c1) (some c2) = merged c1 (combine c1.value c2.value)
merge_found (some c) none = ok (some c)
merge_found none (some c) = ok (some c)
merge_found none none = ok none

unfoldable pub merge_pg_configs :
    List PgConfig → List PgConfig → String → Result MergeError (Option PgConfig)
unfolding find_config combine
merge_pg_configs vec1 vec2 name = merge_found (find_config name vec1) (find_config name vec2)

-- `impl Display for ConfigValue`
unfoldable pub display : ConfigValue → String
unfolding sort_multivalue_configs join
display (single value) = value
display (multiple values) =
    join "," (sort_multivalue_configs values multi_val_configs_priority_list)
