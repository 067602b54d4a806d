-- ===== src/Operator/Params/Wire/Roundtrip.antt =====
-- Writing a configuration and reading it back (tembo-operator/src/apis/postgres_parameters.rs).
use tembo.Prelude.{
  String, ◌≡◌, refl, true, false, some, List, [], ◌∷◌, map, list_contains, trim, join, All,
}
use tembo.Prelude.Text.Split.{IsPart, split-join}
use tembo.Prelude.BTreeSet
use tembo.Prelude.BTreeSet.{BTreeSet}
use tembo.Prelude.Result.{ok}
use tembo.Operator.Params.Names.{multi_val_configs}
use tembo.Operator.Params.Value.{ConfigValue, single, multiple, PgConfig}
use tembo.Operator.Params.Wire.{
  split_trim, serialize, visit_str, finish, visit_from, visit_map, serialize_config,
}

map-trim : (ws : List String) → All (λ w. trim w ≡ w) ws → map trim ws ≡ ws
map-trim [] h = refl
map-trim (w ∷ ws) (h, k) = rw (h, map-trim ws k)

-- What a value must be for its name to be read back as it was: a text under a name with a single
-- value, and under a name with several a set that is not empty, in order, and whose elements have
-- no comma and no blanks at their ends.
abbrev pub Fits : String → ConfigValue → Type 0
Fits name (single v) = list_contains multi_val_configs name ≡ false
Fits name (multiple []) = ⊥
Fits name (multiple (w ∷ ws)) =
    (list_contains multi_val_configs name ≡ true)
    × BTreeSet.IsOrdered (w ∷ ws)
    × All IsPart (w ∷ ws)
    × All (λ v. trim v ≡ v) (w ∷ ws)

split_trim-join :
    (w : String) (ws : List String)
    → All IsPart (w ∷ ws)
    → All (λ v. trim v ≡ v) (w ∷ ws)
    → split_trim (join "," (w ∷ ws)) ≡ w ∷ ws
unfolding split_trim
split_trim-join w ws p t = rw (split-join w ws p) (map-trim (w ∷ ws) t)

read_back :
    (name : String) (value : ConfigValue)
    → Fits name value
    → finish (some name) (some (serialize value)) ≡ ok (record { name = name; value = value })
unfolding finish serialize
read_back name (single v) h = rw h
read_back name (multiple []) h = absurd h
read_back name (multiple (w ∷ ws)) (h, o, p, t) =
    rw (h, split_trim-join w ws p t) (rw (BTreeSet.from_list_of_IsOrdered (w ∷ ws) o))

-- A configuration whose value fits its name is read back as it was written.
pub visit_map-serialize_config :
    (c : PgConfig) → Fits c.name c.value → visit_map (serialize_config c) ≡ ok c
unfolding visit_map serialize_config visit_from visit_str
visit_map-serialize_config c h = read_back c.name c.value h

-- The empty set is read back as the set with the empty text.
pub visit_map-serialize_empty :
    (name : String)
    → list_contains multi_val_configs name ≡ true
    → visit_map (serialize_config (record { name = name; value = multiple [] }))
      ≡ ok (record { name = name; value = multiple ("" ∷ []) })
unfolding visit_map serialize_config visit_from visit_str finish serialize split_trim join
visit_map-serialize_empty name h = rw h
