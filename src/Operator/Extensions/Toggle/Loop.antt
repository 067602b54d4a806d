-- ===== src/Operator/Extensions/Toggle/Loop.antt =====
-- The loop over the extensions that are to be switched, and the reconciliation that it ends
-- (tembo-operator/src/extensions/toggle.rs).
use tembo.Prelude.{
  String, Bool, not, ◌&&◌, ◌||◌, Option, none, some, List, [], ◌∷◌, ◌++◌, is_some, list_contains,
  if◌then◌else◌,
}
use tembo.Prelude.Trace.{pure, lift, ◌>>=◌, ◌>>◌}
use tembo.Prelude.BTreeMap.{BTreeMap, get}
use tembo.Operator.Types.{Extension, ExtensionInstallLocation, ExtensionStatus, CoreDb}
use tembo.Operator.Registry.{
  trunk_project, get_trunk_project_for_extension, get_loadable_library_name, is_control_file_absent,
}
use tembo.Operator.Extensions.Toggle.{
  determine_updated_extensions_status, determine_extension_locations_to_toggle,
}
use tembo.Operator.Extensions.Toggle.WithLoad.{check_for_extensions_enabled_with_load}
use tembo.Operator.Extensions.Toggle.Run.{
  Answers, Toggling, acting, or_panic, expected_library_name,
  requeue_if_expecting_shared_preload_library, get_trunk_project_version, update_extensions_status,
  switch_location,
}

module _ (answers : Answers) (cdb : CoreDb) (current : List String)
    (requires_load : BTreeMap String) where
  -- The extension is to be switched on, and its library is not loaded.
  abbrev pub lacks_library : String → ExtensionInstallLocation → Option String → Bool
  lacks_library name location library =
      location.enabled
      && (is_some (get name requires_load) || is_some library)
      && not (list_contains current (expected_library_name requires_load name))

  unfoldable pub switch_if_loaded :
      String
      → ExtensionInstallLocation
      → List ExtensionStatus
      → Option String
      → Toggling (List ExtensionStatus)
  switch_if_loaded name location statuses library =
      if lacks_library name location library
      then (lift (acting (requeue_if_expecting_shared_preload_library cdb name requires_load))
          >> switch_location answers cdb name location statuses)
      else switch_location answers cdb name location statuses

  -- With the project and its version; `continue` where the extension is enabled with LOAD.
  unfoldable pub switch_unless_load :
      String
      → ExtensionInstallLocation
      → List ExtensionStatus
      → String
      → String
      → Toggling (List ExtensionStatus)
  unfolding switch_if_loaded
  switch_unless_load name location statuses project version = do
    library ←
        lift
          (acting (get_loadable_library_name answers.registry project (trunk_project version) name))
    absent ←
        lift (or_panic (is_control_file_absent answers.registry project (trunk_project version)))
    if absent && is_some library
        then pure statuses
        else switch_if_loaded name location statuses library

  abbrev pub with_version :
      String
      → ExtensionInstallLocation
      → List ExtensionStatus
      → String
      → Option String
      → Toggling (List ExtensionStatus)
  with_version name location statuses project none = pure statuses
  with_version name location statuses project (some version) =
      switch_unless_load name location statuses project version

  abbrev pub with_project :
      String
      → ExtensionInstallLocation
      → List ExtensionStatus
      → Option String
      → Toggling (List ExtensionStatus)
  with_project name location statuses none = switch_if_loaded name location statuses none
  with_project name location statuses (some project) = do
    version ← lift (acting (get_trunk_project_version answers.registry cdb project location))
    with_version name location statuses project version

  -- One round of the inner loop.
  unfoldable pub toggle_location :
      String → ExtensionInstallLocation → List ExtensionStatus → Toggling (List ExtensionStatus)
  unfolding switch_unless_load switch_if_loaded
  toggle_location name location statuses = do
    project ← lift (acting (get_trunk_project_for_extension answers.registry answers.registry name))
    with_project name location statuses project

  unfoldable pub toggle_locations :
      String
      → List ExtensionInstallLocation
      → List ExtensionStatus
      → Toggling (List ExtensionStatus)
  unfolding toggle_location
  toggle_locations name [] statuses = pure statuses
  toggle_locations name (location ∷ locations) statuses =
      toggle_location name location statuses >>= λ next. toggle_locations name locations next

  unfoldable pub toggle_all :
      List Extension → List ExtensionStatus → Toggling (List ExtensionStatus)
  unfolding toggle_locations
  toggle_all [] statuses = pure statuses
  toggle_all (extension ∷ extensions) statuses =
      toggle_locations extension.name extension.locations statuses >>= λ next.
      toggle_all extensions next

unfoldable pub toggle_extensions :
    Answers → List ExtensionStatus → CoreDb → List Extension → Toggling (List ExtensionStatus)
unfolding toggle_all
toggle_extensions answers statuses cdb toggle_these_extensions = do
  current ← lift (acting answers.libraries)
  requires_load ← lift (acting answers.requires_load)
  toggle_all answers cdb current requires_load toggle_these_extensions statuses

unfoldable pub reconcile_extension_toggle_state : Answers → CoreDb → Toggling (List ExtensionStatus)
unfolding update_extensions_status toggle_extensions check_for_extensions_enabled_with_load
reconcile_extension_toggle_state answers cdb = do
  installed ← lift (acting answers.all_extensions)
  with_load ← lift (check_for_extensions_enabled_with_load answers cdb installed)
  update_extensions_status answers
      (determine_updated_extensions_status cdb (installed ++ with_load))
  reread ← lift (acting answers.reread)
  toggle_extensions answers (determine_updated_extensions_status cdb (installed ++ with_load))
      reread (determine_extension_locations_to_toggle reread)
