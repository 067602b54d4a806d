-- ===== src/Operator/Extensions/Status.antt =====
-- The status of extensions: lookup, and setting one location
-- (tembo-operator/src/extensions/types.rs and kubernetes_queries.rs).
use mathlib.Core.Option
use tembo.Prelude.{
  String, Bool, Option, none, some, List, [], ◌∷◌, ◌++◌, ◌==◌, if◌then◌else◌, find, str_le,
}
use tembo.Prelude.Sort
use tembo.Operator.Types.{
  Extension, ExtensionInstallLocation, ExtensionStatus, ExtensionInstallLocationStatus, CoreDb,
  CoreDbStatus,
}

-- The two loops of `get_location_status`: the first extension of the name decides.
unfoldable pub locations_of : String → List ExtensionStatus → Option ExtensionStatus
unfolding find
locations_of name extensions = find (λ e. e.name == name) extensions

unfoldable pub at_database :
    String → List ExtensionInstallLocationStatus → Option ExtensionInstallLocationStatus
unfolding find
at_database database locations = find (λ l. l.database == database) locations

unfoldable pub status_lookup :
    String → String → List ExtensionStatus → Option ExtensionInstallLocationStatus
unfolding locations_of at_database
status_lookup name database extensions = elim (locations_of name extensions) [
  | none ↦ none
  | some extension ↦ at_database database extension.locations
]

abbrev pub status_extensions : Option CoreDbStatus → Option (List ExtensionStatus)
status_extensions none = none
status_extensions (some status) = status.extensions

unfoldable pub get_location_status :
    CoreDb → String → String → Option ExtensionInstallLocationStatus
unfolding status_lookup
get_location_status cdb extension_name location_database = elim (status_extensions cdb.status) [
  | none ↦ none
  | some extensions ↦ status_lookup extension_name location_database extensions
]

unfoldable pub spec_lookup : String → String → List Extension → Option ExtensionInstallLocation
unfolding find
spec_lookup name database extensions = elim (find (λ e. e.name == name) extensions) [
  | none ↦ none
  | some extension ↦ find (λ l. l.database == database) extension.locations
]

unfoldable pub get_location_spec : CoreDb → String → String → Option ExtensionInstallLocation
unfolding spec_lookup
get_location_spec cdb extension_name location_database =
    spec_lookup extension_name location_database cdb.spec.extensions

-- The comparators of the sorts: `Less` or `Equal`.
abbrev pub database_le : ExtensionInstallLocationStatus → ExtensionInstallLocationStatus → Bool
database_le a b = str_le a.database b.database

abbrev pub name_le : ExtensionStatus → ExtensionStatus → Bool
name_le a b = str_le a.name b.name

-- The loop over the locations: the first of the database is replaced, if there is one.
unfoldable pub replace_location :
    ExtensionInstallLocationStatus
    → List ExtensionInstallLocationStatus
    → Option (List ExtensionInstallLocationStatus)
replace_location new [] = none
replace_location new (location ∷ locations) =
    let later = Option.map (λ ls. location ∷ ls) (replace_location new locations) in
    if location.database == new.database then some (new ∷ locations) else later

-- What becomes of the locations of the extension: replaced, or pushed and sorted.
unfoldable pub put_location :
    ExtensionInstallLocationStatus
    → List ExtensionInstallLocationStatus
    → List ExtensionInstallLocationStatus
unfolding replace_location Sort.sort_by
put_location new locations = elim (replace_location new locations) [
  | some replaced ↦ replaced
  | none ↦ Sort.sort_by database_le (locations ++ new ∷ [])
]

-- The loop over the extensions: the first of the name is changed, if there is one.
unfoldable pub merge_existing :
    String → ExtensionInstallLocationStatus → List ExtensionStatus → Option (List ExtensionStatus)
unfolding put_location
merge_existing name new [] = none
merge_existing name new (extension ∷ extensions) =
    let later = Option.map (λ es. extension ∷ es) (merge_existing name new extensions) in
    if extension.name == name
    then some (record extension { locations = put_location new extension.locations } ∷ extensions)
    else later

unfoldable pub merge_location_status_into_extension_status_list :
    String → ExtensionInstallLocationStatus → List ExtensionStatus → List ExtensionStatus
unfolding merge_existing Sort.sort_by
merge_location_status_into_extension_status_list name new current =
    elim (merge_existing name new current) [
      | some merged ↦ merged
      | none ↦
          Sort.sort_by name_le
            (current ++ record { name = name; description = none; locations = new ∷ [] } ∷ [])
    ]
