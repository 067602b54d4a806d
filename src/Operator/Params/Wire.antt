-- ===== src/Operator/Params/Wire.antt =====
-- How values are read and written (the conversions and the serde implementations of
-- tembo-operator/src/apis/postgres_parameters.rs).
-- The deserializer of serde hands `visit_map` the keys and values of a map one after the other.
-- Here they are a list; a value is `none` where it is no text, so that `next_value` fails.
pub mod Roundtrip
use tembo.Prelude.{
  String, Bool, true, false, Option, none, some, List, [], ◌∷◌, map, ◌==◌, if◌then◌else◌, is_some,
  list_contains, split_char, trim, contains, join,
}
use tembo.Prelude.BTreeSet
use tembo.Prelude.BTreeSet.{BTreeSet}
use tembo.Prelude.Result.{Result, ok, err, ◌>>=◌, ok_or}
use tembo.Operator.Params.Names.{multi_val_configs}
use tembo.Operator.Params.Value.{ConfigValue, single, multiple, PgConfig}

-- `s.split(',').map(|s| s.trim().to_string())`
unfoldable pub split_trim : String → List String
unfolding split_char trim
split_trim s = map trim (split_char b',' s)

-- `impl From<&str> for ConfigValue`: the vector has more than one part, or just one.
abbrev from_parts : List String → ConfigValue
from_parts [] = single ""
from_parts (v ∷ []) = single v
from_parts (v ∷ w ∷ more) = multiple (BTreeSet.from_list (v ∷ w ∷ more))

unfoldable pub from_str : String → ConfigValue
unfolding split_trim BTreeSet.from_list
from_str item = from_parts (split_trim item)

-- `impl FromStr for ConfigValue`, which does not trim.
unfoldable pub parse : String → ConfigValue
unfolding contains split_char BTreeSet.from_list
parse s = if contains s "," then multiple (BTreeSet.from_list (split_char b',' s)) else single s

pub data DeError : Type 0 where
  unknown_field duplicate_field custom : String → DeError
  invalid_type : DeError

-- `impl From<WrapValue> for Result<ConfigValue, _>`, on what `as_str` answers.
unfoldable pub from_json : Option String → Result DeError ConfigValue
unfolding contains split_trim BTreeSet.from_list
from_json none = err (custom "Invalid value: expected string")
from_json (some s) =
    ok (if contains s "," then multiple (BTreeSet.from_list (split_trim s)) else single s)

-- `impl Serialize for ConfigValue`: the elements in the order of the set.
unfoldable pub serialize : ConfigValue → String
unfolding join
serialize (single val) = val
serialize (multiple set) = join "," set

pub data KeyValue : Type 0 where
  name value : KeyValue

unfoldable pub visit_str : String → Result DeError KeyValue
visit_str key =
    if key == "name" then ok name else if key == "value" then ok value else err (unknown_field key)

-- `map.next_value()?`
abbrev next_value : Option String → Result DeError String
next_value none = err invalid_type
next_value (some s) = ok s

-- The end of `visit_map`, behind its loop.
unfoldable pub finish : Option String → Option String → Result DeError PgConfig
unfolding split_trim list_contains BTreeSet.from_list
finish found_name found_value = do
  n ← ok_or (custom "key 'name' not found") found_name
  raw ← ok_or (custom "key 'value' not found") found_value
  ok (record {
    name = n;
    value =
        if list_contains multi_val_configs n
        then multiple (BTreeSet.from_list (split_trim raw))
        else single raw;
  })

-- The loop of `visit_map`, and what follows it.
unfoldable pub visit_from :
    Option String → Option String → List (String × Option String) → Result DeError PgConfig
unfolding visit_str finish
visit_from n v [] = finish n v
visit_from n v ((key, raw) ∷ more) = elim (visit_str key) [
  | err e ↦ err e
  | ok KeyValue.name ↦
      if is_some n
      then err (duplicate_field "name")
      else (next_value raw >>= λ s. visit_from (some s) v more)
  | ok KeyValue.value ↦
      if is_some v
      then err (duplicate_field "value")
      else (next_value raw >>= λ s. visit_from n (some s) more)
]

unfoldable pub visit_map : List (String × Option String) → Result DeError PgConfig
unfolding visit_from
visit_map entries = visit_from none none entries

-- The derived `Serialize` of `PgConfig`: its two fields, in the order of their declaration.
unfoldable pub serialize_config : PgConfig → List (String × Option String)
unfolding serialize
serialize_config c = ("name", some c.name) ∷ ("value", some (serialize c.value)) ∷ []
