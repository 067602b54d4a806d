-- ===== src/Operator/Extensions/Toggle/WithLoad.antt =====
-- The extensions that are enabled with LOAD, which a database does not list
-- (tembo-operator/src/extensions/toggle.rs).
use tembo.Prelude.{
  String, Bool, true, false, not, none, some, List, [], ◌∷◌, ◌++◌, map, any, retain, ◌==◌,
  if◌then◌else◌,
}
use tembo.Prelude.Result.{Result, ok, ok_or, ◌>>=◌}
use tembo.Operator.Types.{
  Extension, ExtensionInstallLocation, ExtensionStatus, ExtensionInstallLocationStatus,
  TrunkInstall, CoreDb,
}
use tembo.Operator.Registry.{
  trunk_project, get_trunk_project_for_extension, get_trunk_project_description,
}
use tembo.Operator.Extensions.Toggle.Run.{Answers, Stop, panic, acting}

-- The packages of the specification that the databases do not list as extensions.
unfoldable pub not_listed : List TrunkInstall → List ExtensionStatus → List TrunkInstall
unfolding retain
not_listed installs installed =
    retain
      (λ (install : TrunkInstall).
        not (any (λ (e : ExtensionStatus). install.name == e.name) installed))
      installs

abbrev pub as_desired : ExtensionInstallLocation → ExtensionInstallLocationStatus
as_desired desired = record {
  database = desired.database;
  schema = desired.schema;
  version = desired.version;
  enabled = some desired.enabled;
  error = some false;
  error_message = none;
}

abbrev pub default_location : ExtensionInstallLocationStatus
default_location = record {
  database = "postgres";
  schema = none;
  version = none;
  enabled = some false;
  error = some false;
  error_message = none;
}

-- The loop over the desired extensions of the name.
unfoldable pub desired_locations : String → List Extension → List ExtensionInstallLocationStatus
desired_locations name [] = []
desired_locations name (desired ∷ more) =
    let rest = desired_locations name more in
    if desired.name == name then map as_desired desired.locations ++ rest else rest

abbrev pub locations_or_default : CoreDb → String → List ExtensionInstallLocationStatus
locations_or_default cdb name =
    if any (λ (desired : Extension). desired.name == name) cdb.spec.extensions
    then desired_locations name cdb.spec.extensions
    else default_location ∷ []

-- The project and the version are unwrapped.
unfoldable pub loaded_status : Answers → CoreDb → TrunkInstall → Result Stop ExtensionStatus
unfolding desired_locations
loaded_status answers cdb install = do
  found ← acting (get_trunk_project_for_extension answers.registry answers.registry install.name)
  project ← ok_or panic found
  version ← ok_or panic install.version
  description ←
      acting (get_trunk_project_description answers.registry project (trunk_project version))
  ok (record {
    name = install.name;
    description = description;
    locations = locations_or_default cdb install.name;
  })

abbrev pub if_present :
    Bool → Result Stop ExtensionStatus → List ExtensionStatus → Result Stop (List ExtensionStatus)
if_present true res statuses = res >>= λ new. ok (statuses ++ new ∷ [])
if_present false res statuses = ok statuses

-- The loop over the packages, in a pod.
unfoldable pub check_pod :
    Answers
    → CoreDb
    → String
    → List TrunkInstall
    → List ExtensionStatus
    → Result Stop (List ExtensionStatus)
unfolding loaded_status
check_pod answers cdb pod [] statuses = ok statuses
check_pod answers cdb pod (install ∷ installs) statuses = do
  present ← acting (answers.check_for_so_files pod install.name)
  next ← if_present present (loaded_status answers cdb install) statuses
  check_pod answers cdb pod installs next

unfoldable pub check_pods :
    Answers
    → CoreDb
    → List TrunkInstall
    → List String
    → List ExtensionStatus
    → Result Stop (List ExtensionStatus)
unfolding check_pod
check_pods answers cdb installs [] statuses = ok statuses
check_pods answers cdb installs (pod ∷ pods) statuses =
    check_pod answers cdb pod installs statuses >>= λ next.
    check_pods answers cdb installs pods next

unfoldable pub check_for_extensions_enabled_with_load :
    Answers → CoreDb → List ExtensionStatus → Result Stop (List ExtensionStatus)
unfolding not_listed check_pods
check_for_extensions_enabled_with_load answers cdb installed = do
  pods ← acting answers.pods
  check_pods answers cdb (not_listed cdb.spec.trunk_installs installed) pods []
