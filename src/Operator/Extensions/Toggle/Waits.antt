-- ===== src/Operator/Extensions/Toggle/Waits.antt =====
-- An extension that the server has yet to load is not switched on
-- (tembo-operator/src/extensions/toggle.rs).
use tembo.Prelude.{
  String, ◌≡◌, refl, Bool, true, false, Option, none, some, List, [], ◌∷◌, any, is_some, ◌&&◌,
  list_contains, arith,
}
use tembo.Prelude.Result.{err}
use tembo.Prelude.Trace.{Lacks, Lacks-then, Lacks-lift, Lacks-if, lift, ◌>>◌}
use tembo.Prelude.BTreeMap.{BTreeMap, get}
use tembo.Operator.Types.{ExtensionInstallLocation, ExtensionStatus, CoreDb}
use tembo.Operator.Api.{Action}
use tembo.Operator.Registry.{
  trunk_project, get_trunk_project_for_extension, get_loadable_library_name, is_control_file_absent,
}
use tembo.Operator.Extensions.Toggle.Run.{
  Call, Answers, Toggling, acting, or_panic, expected_library_name,
  requeue_if_expecting_shared_preload_library, get_trunk_project_version, switch_location,
}
use tembo.Operator.Extensions.Toggle.Loop.{
  lacks_library, switch_if_loaded, switch_unless_load, with_version, with_project, toggle_location,
}

-- Every call.
abbrev is_call : Call → Bool
is_call _ = true

none_made : (asked : List Call) → any is_call asked ≡ false → asked ≡ []
none_made [] h = refl
none_made (asked ∷ more) h = cc

module _ (answers : Answers) (cdb : CoreDb) (current : List String)
    (requires_load : BTreeMap String) (name : String) (location : ExtensionInstallLocation)
    (statuses : List ExtensionStatus) (action : Action) (enabled : location.enabled ≡ true)
    (required : is_some (get name requires_load) ≡ true)
    (absent : list_contains current (expected_library_name requires_load name) ≡ false)
    (expecting : requeue_if_expecting_shared_preload_library cdb name requires_load
      ≡ err action) where
  lacks :
      (library : Option String)
      → lacks_library answers cdb current requires_load name location library ≡ true
  lacks library = ground arith

  stops :
      (m : Toggling (List ExtensionStatus))
      → Lacks is_call
          (lift (acting (requeue_if_expecting_shared_preload_library cdb name requires_load)) >> m)
  stops m = rw expecting (record { made = refl })

  loaded-Lacks :
      (library : Option String)
      → Lacks is_call
          (switch_if_loaded answers cdb current requires_load name location statuses library)
  unfolding switch_if_loaded
  loaded-Lacks library =
      Lacks-if is_call (lacks_library answers cdb current requires_load name location library) _ _
        (λ _. stops (switch_location answers cdb name location statuses))
        (λ h. let k = lacks library in cc)

  unless_load-Lacks :
      (project version : String)
      → Lacks is_call (
          switch_unless_load answers cdb current requires_load name location statuses project
            version)
  unfolding switch_unless_load
  unless_load-Lacks project version =
      Lacks-then is_call
        (lift (
          acting (get_loadable_library_name answers.registry project (trunk_project version) name)))
        _ (Lacks-lift is_call _)
        (λ library _.
          Lacks-then is_call
            (lift
              (or_panic (is_control_file_absent answers.registry project (trunk_project version))))
            _ (Lacks-lift is_call _)
            (λ with_load _.
              Lacks-if is_call (with_load && is_some library) _ _ (λ _. record { made = refl })
                (λ _. loaded-Lacks library)))

  version-Lacks :
      (project : String) (version : Option String)
      → Lacks is_call
          (with_version answers cdb current requires_load name location statuses project version)
  version-Lacks project none = record { made = refl }
  version-Lacks project (some version) = unless_load-Lacks project version

  project-Lacks :
      (project : Option String)
      → Lacks is_call
          (with_project answers cdb current requires_load name location statuses project)
  project-Lacks none = loaded-Lacks none
  project-Lacks (some project) =
      Lacks-then is_call
        (lift (acting (get_trunk_project_version answers.registry cdb project location)))
        (with_version answers cdb current requires_load name location statuses project)
        (Lacks-lift is_call _) (λ version _. version-Lacks project version)

-- An extension that is to be switched on, is among those that require a library, and whose library
-- is not loaded but stands in the configuration or may, as the configuration cannot be had, makes
-- no call, whatever the registry and the database answer: it is not switched, and its status is
-- left.
pub toggle_location-waits :
    (answers : Answers) (cdb : CoreDb) (current : List String) (requires_load : BTreeMap String)
    (name : String) (location : ExtensionInstallLocation) (statuses : List ExtensionStatus)
    (action : Action)
    → location.enabled ≡ true
    → is_some (get name requires_load) ≡ true
    → list_contains current (expected_library_name requires_load name) ≡ false
    → requeue_if_expecting_shared_preload_library cdb name requires_load ≡ err action
    → (toggle_location answers cdb current requires_load name location statuses).0 ≡ []
unfolding toggle_location
toggle_location-waits answers cdb current requires_load name location statuses action on req abs
      exp =
    none_made _
      (Lacks-then is_call
        (lift (acting (get_trunk_project_for_extension answers.registry answers.registry name)))
        (with_project answers cdb current requires_load name location statuses)
        (Lacks-lift is_call _)
        (λ project _.
          project-Lacks answers cdb current requires_load name location statuses action on req abs
            exp project)).made
