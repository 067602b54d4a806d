-- ===== src/Operator/Extensions/Toggle/Run.antt =====
-- The switching of the extensions of an instance (tembo-operator/src/extensions/toggle.rs, and the
-- updates of the status in kubernetes_queries.rs).
use tembo.Prelude.{
  String, Bool, true, ◌&&◌, Option, none, some, List, [], ◌∷◌, map, ◌==◌, is_some, unwrap_or,
  contains, if◌then◌else◌,
}
use tembo.Prelude.Result.{Result, ok, err}
use tembo.Prelude.Trace.{Trace, pure, fail, call, lift, ◌>>=◌, ◌>>◌}
use tembo.Prelude.BTreeMap.{BTreeMap, get}
use tembo.Operator.Params.Value.{PgConfig, MergeError, display}
use tembo.Operator.Types.{
  ExtensionInstallLocation, ExtensionStatus, ExtensionInstallLocationStatus, TrunkInstall, CoreDb,
}
use tembo.Operator.Spec.{get_pg_config_by_name}
use tembo.Operator.Api.{Action, requeue}
use tembo.Operator.Registry.{
  Registry, of_extension, get_trunk_project_metadata_for_version, get_latest_trunk_project_version,
}
use tembo.Operator.Extensions.Status.{
  get_location_status, status_extensions, merge_location_status_into_extension_status_list,
}
use tembo.Operator.Extensions.Toggle.Command.{
  Psql, PsqlOutput, ToggleError, with_description, with_action, toggle_extension,
}

-- The calls that change something: a command in a database, and the status of the instance.
pub data Call : Type 0 where
  switch : Psql → Call
  update_status : List ExtensionStatus → Call

-- How a run ends early: with an action, or in a panic.
pub data Stop : Type 0 where
  act : Action → Stop
  panic : Stop

-- What is answered. `registry` answers alike throughout a run; `current` is the resource as it is
-- read before the status of an extension in a database is updated, `reread` as it is read before
-- the extensions to switch are determined; a namespace that is missing is one of the errors of
-- `update`, `current` and `reread`.
-- `all_extensions` is the answer of get_all_extensions.
pub record Answers : Type 0 where
  pub registry : Registry
  pub psql : Psql → Result Action PsqlOutput
  pub update : List ExtensionStatus → Result Action (Unit {0})
  pub current : String → String → Result Action CoreDb
  pub reread : Result Action CoreDb
  pub libraries : Result Action (List String)
  pub requires_load : Result Action (BTreeMap String)
  pub all_extensions : Result Action (List ExtensionStatus)
  -- The names of the pods, fenced or not, and whether a pod has the library of an extension.
  pub pods : Result Action (List String)
  pub check_for_so_files : String → String → Result Action Bool

abbrev pub Toggling {a} : Type a → Type a
Toggling A = Trace Call Stop A

abbrev pub acting {a} : {A : Type a} → Result Action A → Result Stop A
acting (ok x) = ok x
acting (err action) = err (act action)

abbrev pub or_panic {a} : {A : Type a} → Result Action (Option A) → Result Stop A
or_panic (ok (some x)) = ok x
or_panic (ok none) = err panic
or_panic (err action) = err (act action)

abbrev pub expected_library_name : BTreeMap String → String → String
expected_library_name requires_load name = unwrap_or name (get name requires_load)

abbrev pub requeue_if_in : String → Result MergeError (Option PgConfig) → Result Action (Unit {0})
requeue_if_in library (ok none) = ok tt
requeue_if_in library (ok (some config)) =
    if contains (display config.value) library then err (requeue 10) else ok tt
requeue_if_in library (err _) = err (requeue 300)

unfoldable pub requeue_if_expecting_shared_preload_library :
    CoreDb → String → BTreeMap String → Result Action (Unit {0})
unfolding display contains
requeue_if_expecting_shared_preload_library cdb name requires_load =
    requeue_if_in (expected_library_name requires_load name)
      (get_pg_config_by_name cdb.spec "shared_preload_libraries" requires_load)

-- The loop over the packages of the specification.
unfoldable pub install_version : String → List TrunkInstall → Option String
install_version name [] = none
install_version name (install ∷ installs) =
    let rest = install_version name installs in
    if install.name == name && is_some install.version then install.version else rest

-- The version of the project that has the extension in a version, if the registry knows one.
abbrev pub version_for : Registry → String → Option String → Option String
version_for registry name none = none
version_for registry name (some version) =
    elim (get_trunk_project_metadata_for_version registry name (of_extension version)) [
      | ok project ↦ some project.version
      | err _ ↦ none
    ]

abbrev pub latest_version : Registry → String → Result Action (Option String)
latest_version registry name = elim (get_latest_trunk_project_version registry name) [
  | ok version ↦ ok (some version)
  | err action ↦ err action
]

unfoldable pub get_trunk_project_version :
    Registry → CoreDb → String → ExtensionInstallLocation → Result Action (Option String)
unfolding install_version
get_trunk_project_version registry cdb name location =
    elim (install_version name cdb.spec.trunk_installs) [
      | some version ↦ ok (some version)
      | none ↦ elim (version_for registry name location.version) [
        | some version ↦ ok (some version)
        | none ↦ latest_version registry name
      ]
    ]

unfoldable pub update_extensions_status : Answers → List ExtensionStatus → Toggling (Unit {0})
update_extensions_status answers statuses =
    call (update_status statuses) (acting (answers.update statuses))

abbrev pub current_statuses : CoreDb → Result Stop (List ExtensionStatus)
current_statuses cdb = elim (status_extensions cdb.status) [
  | none ↦ err (act (requeue 300))
  | some statuses ↦ ok statuses
]

unfoldable pub update_extension_location_in_status :
    Answers → String → ExtensionInstallLocationStatus → Toggling (List ExtensionStatus)
unfolding update_extensions_status
update_extension_location_in_status answers name new = do
  cdb ← lift (acting (answers.current name new.database))
  current ← lift (current_statuses cdb)
  update_extensions_status answers
      (merge_location_status_into_extension_status_list name new current)
  pure (merge_location_status_into_extension_status_list name new current)

abbrev pub location_status : CoreDb → String → String → ExtensionInstallLocationStatus
location_status cdb name database =
    unwrap_or
      (record {
        database = database;
        schema = none;
        version = none;
        enabled = none;
        error = some true;
        error_message = none;
      })
      (get_location_status cdb name database)

abbrev pub failed_status : CoreDb → String → String → String → ExtensionInstallLocationStatus
failed_status cdb name database message = record (location_status cdb name database) {
  error = some true;
  error_message = some message;
}

-- `toggle_extension`, whose errors are matched on.
abbrev pub switched : Trace Psql ToggleError (Unit {0}) → Toggling (Result ToggleError (Unit {0}))
switched (asked, res) = (map switch asked, ok res)

abbrev pub after_switch :
    Answers
    → CoreDb
    → String
    → String
    → List ExtensionStatus
    → Result ToggleError (Unit {0})
    → Toggling (List ExtensionStatus)
after_switch answers cdb name database statuses (ok _) = pure statuses
after_switch answers cdb name database statuses (err (with_action action)) = fail (act action)
after_switch answers cdb name database statuses (err (with_description message)) =
    update_extension_location_in_status answers name (failed_status cdb name database message)

unfoldable pub switch_location :
    Answers
    → CoreDb
    → String
    → ExtensionInstallLocation
    → List ExtensionStatus
    → Toggling (List ExtensionStatus)
unfolding toggle_extension
switch_location answers cdb name location statuses = do
  res ← switched (toggle_extension answers.psql name location)
  after_switch answers cdb name location.database statuses res
