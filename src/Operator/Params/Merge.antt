-- ===== src/Operator/Params/Merge.antt =====
-- What merging two layers of a parameter gives (tembo-operator/src/apis/postgres_parameters.rs).
use tembo.Prelude.{
  String, ◌≡◌, ◌↔◌, ◌⊎◌, inl, inr, refl, Bool, false, ◌||◌, Option, none, some, List, [], ◌∷◌,
  arith, eq_iff,
}
use tembo.Prelude.BTreeSet
use tembo.Prelude.Result.{Result, ok, err}
use tembo.Operator.Params.Value.{
  ConfigValue, single, multiple, PgConfig, MergeError, single_value_not_allowed, combine, merged,
  find_config, merge_found, merge_pg_configs,
}

-- Whether a value is a list with the element.
abbrev pub value_has : String → ConfigValue → Bool
value_has j (single v) = false
value_has j (multiple s) = BTreeSet.has j s

abbrev pub found_has : String → Option PgConfig → Bool
found_has j none = false
found_has j (some c) = value_has j c.value

abbrev pub IsSingle : ConfigValue → Type 0
IsSingle (single v) = Unit
IsSingle (multiple s) = ⊥

combine-has :
    (v w : ConfigValue) (j : String) (u : ConfigValue)
    → combine v w ≡ ok u
    → value_has j u ≡ (value_has j v || value_has j w)
unfolding combine
combine-has (single v) w j u h = cc
combine-has (multiple s) (single w) j u h = cc
combine-has (multiple s) (multiple t) j u h =
    let same : u ≡ multiple (BTreeSet.append s t) = ground arith in
    rw same (BTreeSet.has-append j s t)

pub find_config-name :
    (name : String) (cs : List PgConfig) (c : PgConfig)
    → find_config name cs ≡ some c
    → c.name ≡ name
unfolding find_config
find_config-name name [] c h = cc
find_config-name name (d ∷ cs) c h = ground (arith, eq_iff d.name name, find_config-name name cs c)

merge_found-has :
    (o p : Option PgConfig) (j : String) (m : Option PgConfig)
    → merge_found o p ≡ ok m
    → found_has j m ≡ (found_has j o || found_has j p)
merge_found-has none none j m h = ground arith
merge_found-has none (some d) j m h = ground arith
merge_found-has (some d) none j m h = ground arith
merge_found-has (some d) (some e) j none h = ground arith
merge_found-has (some d) (some e) j (some c) h =
    ground (arith, combine-has d.value e.value j c.value)

-- Merging keeps the elements of both layers' lists and adds none.
pub merge_pg_configs-found :
    (vec1 vec2 : List PgConfig) (name j : String) (m : Option PgConfig)
    → merge_pg_configs vec1 vec2 name ≡ ok m
    → found_has j m ≡ (found_has j (find_config name vec1) || found_has j (find_config name vec2))
unfolding merge_pg_configs
merge_pg_configs-found vec1 vec2 name j m h =
    merge_found-has (find_config name vec1) (find_config name vec2) j m h

merge_found-name :
    (o p : Option PgConfig) (name : String) (c : PgConfig)
    → ((d : PgConfig) → o ≡ some d → d.name ≡ name)
    → ((d : PgConfig) → p ≡ some d → d.name ≡ name)
    → merge_found o p ≡ ok (some c)
    → c.name ≡ name
merge_found-name none none name c m n h = cc
merge_found-name none (some d) name c m n h = ground (arith, n d)
merge_found-name (some d) none name c m n h = ground (arith, m d)
merge_found-name (some d) (some e) name c m n h = ground (arith, m d)

-- A merged configuration has the name that was asked for, and the elements of both layers' lists
-- and no others.
pub merge_pg_configs-has :
    (vec1 vec2 : List PgConfig) (name : String) (c : PgConfig)
    → merge_pg_configs vec1 vec2 name ≡ ok (some c)
    → (c.name ≡ name)
      × ((j : String)
          → value_has j c.value
            ≡ (found_has j (find_config name vec1) || found_has j (find_config name vec2)))
unfolding merge_pg_configs
merge_pg_configs-has vec1 vec2 name c h = (
  merge_found-name (find_config name vec1) (find_config name vec2) name c
      (find_config-name name vec1) (find_config-name name vec2) h,
  λ j. merge_found-has (find_config name vec1) (find_config name vec2) j (some c) h,
)

-- Two configurations, one of which has a single value.
abbrev pub IsConflict : Option PgConfig → Option PgConfig → Type 0
IsConflict (some c) (some d) = IsSingle c.value ⊎ IsSingle d.value
IsConflict _ _ = ⊥

combine_err :
    (v w : ConfigValue) → (combine v w ≡ err single_value_not_allowed) ↔ (IsSingle v ⊎ IsSingle w)
unfolding combine
combine_err (single v) w = (λ _. inl tt, λ _. refl)
combine_err (multiple s) (single w) = (λ _. inr tt, λ _. refl)
combine_err (multiple s) (multiple t) = (λ h. cc, λ h. ground arith)

merge_found_err :
    (o p : Option PgConfig) → (merge_found o p ≡ err single_value_not_allowed) ↔ IsConflict o p
merge_found_err none none = (λ h. cc, λ h. elim h [ ])
merge_found_err none (some d) = (λ h. cc, λ h. elim h [ ])
merge_found_err (some c) none = (λ h. cc, λ h. elim h [ ])
merge_found_err (some c) (some d) = go (combine c.value d.value) (combine_err c.value d.value)
  where
    go :
        (r : Result MergeError ConfigValue)
        → (r ≡ err single_value_not_allowed) ↔ (IsSingle c.value ⊎ IsSingle d.value)
        → (merged c r ≡ err single_value_not_allowed) ↔ (IsSingle c.value ⊎ IsSingle d.value)
    go (ok v) (to, from) = (λ h. absurd (cc h), λ h. absurd (cc (from h)))
    go (err single_value_not_allowed) e = (λ _. e.0 refl, λ _. refl)

-- The merge fails exactly when both layers set the name and one of the two values is single.
pub merge_pg_configs-err_iff :
    (vec1 vec2 : List PgConfig) (name : String)
    → (merge_pg_configs vec1 vec2 name ≡ err single_value_not_allowed)
      ↔ IsConflict (find_config name vec1) (find_config name vec2)
unfolding merge_pg_configs
merge_pg_configs-err_iff vec1 vec2 name =
    merge_found_err (find_config name vec1) (find_config name vec2)
