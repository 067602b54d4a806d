-- ===== src/Operator/Registry/Tests.antt =====
-- Tests of the client of the trunk registry (tembo-operator/src/trunk.rs).
use tembo.Prelude.{
  ◌≡◌, refl, true, false, none, some, [], ◌∷◌, if◌then◌else◌, ◌==◌, list_contains, find,
}
use tembo.Prelude.Result.{ok, err, ◌>>=◌}
use tembo.Prelude.BTreeMap.{get}
use tembo.Prelude.Int.{pos}
use tembo.Operator.Api.{api}
use tembo.Operator.Registry.{
  TrunkProjectMetadata, TrunkExtensionMetadata, Registry, trunk_project, of_extension,
  extension_version_not_found, convert_to_semver, get_trunk_project_for_extension,
  get_trunk_project_metadata_for_version, get_loadable_library_name, is_control_file_absent,
  get_trunk_projects, projects_at, get_trunk_project_names, last,
}
use tembo.Operator.Registry.Libraries.{
  patch_config_map, trunk_configmap_name, requires_load_list_from_trunk, reconcile_trunk_configmap,
  extensions_that_require_load,
}
use tembo.Operator.Registry.Written.{library_of, written, extensions_that_require_load-written}

abbrev pg_later : TrunkExtensionMetadata
pg_later = record {
  extension_name = "pg_later";
  version = "0.1.0";
  trunk_project_name = "later";
  dependencies_extension_names = none;
  loadable_libraries = some (
      record { library_name = "hook"; requires_restart = false; priority = pos 1 }
      ∷ record { library_name = "load"; requires_restart = true; priority = pos 2 }
      ∷ []);
  configurations = none;
  control_file = record { absent = false; content = none };
}

abbrev later : TrunkProjectMetadata
later = record {
  name = "later";
  description = none;
  documentation_link = none;
  repository_link = none;
  version = "0.1.0";
  postgres_versions = none;
  extensions = pg_later ∷ [];
  downloads = none;
}

-- It answers each request with one project; the version 15.3 is no semver.
abbrev registry : Registry
registry = record {
  domain = none;
  get = λ _. ok (record { is_success = true; error_for_status = ""; json = ok (later ∷ []) });
  parses = λ version. if version == "15.3" then false else true;
}

abbrev unreachable : Registry
unreachable = record { domain = none; get = λ _. err "timeout"; parses = λ _. true }

convert_test : convert_to_semver registry "15.3" ≡ "15.3.0"
unfolding convert_to_semver
convert_test = refl

for_extension_test :
    get_trunk_project_for_extension registry registry "pg_later" ≡ ok (some "later")
unfolding get_trunk_project_for_extension get_trunk_projects projects_at get_trunk_project_names
    list_contains
for_extension_test = refl

library_test :
    get_loadable_library_name registry "later" (trunk_project "0.1.0") "pg_later" ≡ ok (some "load")
unfolding get_loadable_library_name get_trunk_project_metadata_for_version projects_at last find
library_test = refl

no_version_test :
    get_trunk_project_metadata_for_version registry "later" (of_extension "0.2.0")
    ≡ err (extension_version_not_found "0.2.0")
unfolding get_trunk_project_metadata_for_version projects_at find
no_version_test = refl

absent_test : is_control_file_absent registry "later" (of_extension "0.1.0") ≡ ok (some false)
unfolding is_control_file_absent get_trunk_project_metadata_for_version projects_at find
absent_test = refl

extensions_that_require_load-written_example :
    (reconcile_trunk_configmap registry (err (api 404)) "org"
      ≡ (patch_config_map "org" trunk_configmap_name (written ("hook" ∷ "load" ∷ [])) ∷ [], ok tt))
    × ((extensions_that_require_load (ok (written ("hook" ∷ "load" ∷ []))) >>= λ m.
          ok (get "load" m))
        ≡ ok (library_of ("hook" ∷ "load" ∷ []) "load"))
unfolding requires_load_list_from_trunk get_trunk_projects projects_at
extensions_that_require_load-written_example =
    extensions_that_require_load-written registry (err (api 404)) "org" "load" "hook" ("load" ∷ [])
      refl ((refl, (refl, (refl, (refl, tt)))), ((refl, (refl, (refl, (refl, tt)))), tt))
