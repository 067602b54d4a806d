-- ===== src/Operator/Extensions/Toggle.antt =====
-- Which extensions are to be switched on or off (tembo-operator/src/extensions/toggle.rs).
pub mod Covered
pub mod Requests
pub mod Command
pub mod Plain
pub mod Run
pub mod WithLoad
pub mod Loop
pub mod Waits
mod Tests
use tembo.Prelude.{
  String, Bool, true, false, not, ◌&&◌, Option, none, some, List, [], ◌∷◌, map, ◌==◌, opt_eq,
  if◌then◌else◌, is_none, any, retain, dedup_by,
}
use tembo.Prelude.Sort
use tembo.Operator.Types.{
  Extension, ExtensionInstallLocation, ExtensionStatus, ExtensionInstallLocationStatus, CoreDb,
}
use tembo.Operator.Extensions.Status.{
  get_location_status, get_location_spec, status_lookup, database_le, name_le,
  merge_location_status_into_extension_status_list,
}

-- `==` on `Option<bool>` and a flag.
abbrev pub flag_is : Option Bool → Bool → Bool
flag_is none b = false
flag_is (some true) b = b
flag_is (some false) b = not b

-- The error of the current status stays, if the schema has not changed.
unfoldable pub keep_error :
    Option ExtensionInstallLocationStatus
    → ExtensionInstallLocationStatus
    → ExtensionInstallLocationStatus
unfolding opt_eq
keep_error none location_status = location_status
keep_error (some current) location_status =
    if opt_eq current.schema location_status.schema
    then record location_status { error = current.error; error_message = current.error_message }
    else location_status

-- It goes, if the extension is as desired.
unfoldable pub clear_error :
    Option ExtensionInstallLocation
    → ExtensionInstallLocationStatus
    → ExtensionInstallLocationStatus
clear_error none location_status = location_status
clear_error (some desired) location_status =
    if flag_is location_status.enabled desired.enabled
    then record location_status { error = some false; error_message = none }
    else location_status

-- One round of the loop over the locations that are there.
unfoldable pub updated_location :
    CoreDb → String → ExtensionInstallLocationStatus → ExtensionInstallLocationStatus
unfolding keep_error clear_error
updated_location cdb name actual = clear_error (get_location_spec cdb name actual.database) (
    keep_error (get_location_status cdb name actual.database)
      (record actual { error = some false; error_message = none }))

abbrev same_database : ExtensionInstallLocationStatus → ExtensionInstallLocationStatus → Bool
same_database a b = a.database == b.database

abbrev pub same_name : ExtensionStatus → ExtensionStatus → Bool
same_name a b = a.name == b.name

-- One round of the loop over the extensions that are there.
unfoldable pub updated_extension : CoreDb → ExtensionStatus → ExtensionStatus
unfolding updated_location dedup_by Sort.sort_by
updated_extension cdb actual = record actual {
  locations =
      Sort.sort_by database_le
        (dedup_by same_database (map (updated_location cdb actual.name) actual.locations));
}

abbrev pub unavailable : ExtensionInstallLocation → ExtensionInstallLocationStatus
unavailable desired = record {
  database = desired.database;
  schema = none;
  version = desired.version;
  enabled = none;
  error = some true;
  error_message = some "Extension is not installed";
}

-- One round of the loop over the desired locations. `updated` is the status before the loops.
unfoldable pub add_unavailable :
    List ExtensionStatus
    → String
    → ExtensionInstallLocation
    → List ExtensionStatus
    → List ExtensionStatus
add_unavailable updated name desired statuses =
    if desired.enabled && is_none (status_lookup name desired.database updated)
    then merge_location_status_into_extension_status_list name (unavailable desired) statuses
    else statuses

unfoldable pub add_locations :
    List ExtensionStatus
    → String
    → List ExtensionInstallLocation
    → List ExtensionStatus
    → List ExtensionStatus
add_locations updated name [] statuses = statuses
add_locations updated name (l ∷ ls) statuses =
    add_locations updated name ls (add_unavailable updated name l statuses)

unfoldable pub add_extensions :
    List ExtensionStatus → List Extension → List ExtensionStatus → List ExtensionStatus
add_extensions updated [] statuses = statuses
add_extensions updated (e ∷ es) statuses =
    add_extensions updated es (add_locations updated e.name e.locations statuses)

unfoldable pub determine_updated_extensions_status :
    CoreDb → List ExtensionStatus → List ExtensionStatus
determine_updated_extensions_status cdb all_actually_installed_extensions =
    let updates = map (updated_extension cdb) all_actually_installed_extensions in
    Sort.sort_by name_le (dedup_by same_name (add_extensions updates cdb.spec.extensions updates))

-- A status without an error, of an extension that is there, and not as desired.
unfoldable pub differs : ExtensionInstallLocation → ExtensionInstallLocationStatus → Bool
differs desired actual = elim actual.error [
  | none ↦ false
  | some failed ↦ elim actual.enabled [
    | none ↦ false
    | some on ↦ not failed && not (flag_is (some on) desired.enabled)
  ]
]

unfoldable pub needs_toggle : CoreDb → String → ExtensionInstallLocation → Bool
unfolding differs
needs_toggle cdb name desired = elim (get_location_status cdb name desired.database) [
  | none ↦ false
  | some actual ↦ differs desired actual
]

unfoldable pub toggle_from : CoreDb → List Extension → List Extension
unfolding retain
toggle_from cdb [] = []
toggle_from cdb (desired ∷ more) =
    let rest = toggle_from cdb more in
    if any (needs_toggle cdb desired.name) desired.locations
    then record desired { locations = retain (needs_toggle cdb desired.name) desired.locations }
      ∷ rest
    else rest

unfoldable pub determine_extension_locations_to_toggle : CoreDb → List Extension
unfolding toggle_from
determine_extension_locations_to_toggle cdb = toggle_from cdb cdb.spec.extensions
