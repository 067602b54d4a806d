-- ===== src/Operator/Registry.antt =====
-- The client of the trunk registry (tembo-operator/src/trunk.rs). What the registry answers and the
-- semver crate's verdict are given; the requests change nothing.
pub mod Libraries
pub mod Written
pub mod Tests
use Prim.Native.String
use mathlib.Core.Option
use tembo.Prelude.{
  ℕ, String, Bool, true, false, ◌&&◌, Option, none, some, List, [], ◌∷◌, map, any, find,
  list_contains, ◌==◌, unwrap_or, if◌then◌else◌,
}
use tembo.Prelude.Result.{Result, ok, err, ok_or, ◌>>=◌}
use tembo.Prelude.Int.{ℤ}
use tembo.Operator.Api.{Action, requeue}

pub data Version : Type 0 where
  trunk_project : (version : String) → Version
  of_extension : (version : String) → Version

-- `to_string`
abbrev pub version_text : Version → String
version_text (trunk_project version) = version
version_text (of_extension version) = version

pub record TrunkLoadableLibrariesMetadata : Type 0 where
  pub library_name : String
  pub requires_restart : Bool
  pub priority : ℤ

pub record TrunkControlFileMetadata : Type 0 where
  pub absent : Bool
  pub content : Option String

pub record TrunkExtensionMetadata : Type 0 where
  pub extension_name : String
  pub version : String
  pub trunk_project_name : String
  pub dependencies_extension_names : Option (List String)
  pub loadable_libraries : Option (List TrunkLoadableLibrariesMetadata)
  pub configurations : Option (List String)
  pub control_file : TrunkControlFileMetadata

pub record TrunkDownloadMetadata : Type 0 where
  pub link : String
  pub pg_version : ℤ
  pub platform : String
  pub sha256 : String

pub record TrunkProjectMetadata : Type 0 where
  pub name : String
  pub description : Option String
  pub documentation_link : Option String
  pub repository_link : Option String
  pub version : String
  pub postgres_versions : Option (List ℤ)
  pub extensions : List TrunkExtensionMetadata
  pub downloads : Option (List TrunkDownloadMetadata)

pub data TrunkError : Type 0 where
  project_not_found : (name : String) → TrunkError
  network_failure : (error : String) → TrunkError
  config_map_apply_error : TrunkError
  extension_version_not_found : (version : String) → TrunkError
  trunk_project_version_not_found : (version : String) → TrunkError

-- What `reqwest` answers; `error_for_status` is the error of a status that is no success.
pub record Response : Type 0 where
  pub is_success : Bool
  pub error_for_status : String
  pub json : Result String (List TrunkProjectMetadata)

-- `get` answers a request for a URL, `parses` is `semver::Version::parse(version).is_ok()`.
pub record Registry : Type 0 where
  pub domain : Option String
  pub get : String → Result String Response
  pub parses : String → Bool

abbrev pub network {a} : {A : Type a} → Result String A → Result TrunkError A
network (ok x) = ok x
network (err problem) = err (network_failure problem)

unfoldable pub url : Registry → String → String
url registry path = String.◌++◌ "https://" (
    String.◌++◌ (unwrap_or "registry.pgtrunk.io" registry.domain)
      (String.◌++◌ "/api/v1/trunk-projects" path))

-- A request, and the projects in its answer.
unfoldable pub projects_at : Registry → String → Result TrunkError (List TrunkProjectMetadata)
unfolding url
projects_at registry path = do
  response ← network (registry.get (url registry path))
  if response.is_success
      then network response.json
      else err (network_failure response.error_for_status)

unfoldable pub get_trunk_projects : Registry → Result TrunkError (List TrunkProjectMetadata)
get_trunk_projects registry = projects_at registry ""

unfoldable pub get_trunk_project_names : Registry → Result TrunkError (List String)
get_trunk_project_names registry = do
  projects ← projects_at registry ""
  ok (map (λ (project : TrunkProjectMetadata). project.name) projects)

unfoldable pub get_latest_trunk_project_metadata :
    Registry → String → Result TrunkError TrunkProjectMetadata
get_latest_trunk_project_metadata registry name = do
  projects ← projects_at registry ""
  ok_or (project_not_found name)
      (find (λ (project : TrunkProjectMetadata). project.name == name) projects)

unfoldable pub convert_to_semver : Registry → String → String
convert_to_semver registry version =
    if registry.parses version then version else String.◌++◌ version ".0"

abbrev pub converted : Registry → Version → Version
converted registry (trunk_project version) = trunk_project (convert_to_semver registry version)
converted registry (of_extension version) = of_extension version

abbrev pub path_of : String → Version → String
path_of name (trunk_project version) =
    String.◌++◌ "/" (String.◌++◌ name (String.◌++◌ "/version/" version))
path_of name (of_extension _) = String.◌++◌ "/" name

-- `pop`
unfoldable pub last : List TrunkProjectMetadata → Option TrunkProjectMetadata
last [] = none
last (project ∷ []) = some project
last (project ∷ next ∷ rest) = last (next ∷ rest)

abbrev pub has_version : String → String → TrunkProjectMetadata → Bool
has_version name version project =
    project.name == name
    && any (λ (ext : TrunkExtensionMetadata). ext.version == version) project.extensions

abbrev pub chosen :
    String → Version → List TrunkProjectMetadata → Result TrunkError TrunkProjectMetadata
chosen name (trunk_project version) projects =
    ok_or (trunk_project_version_not_found version) (last projects)
chosen name (of_extension version) projects =
    ok_or (extension_version_not_found version) (find (has_version name version) projects)

unfoldable pub get_trunk_project_metadata_for_version :
    Registry → String → Version → Result TrunkError TrunkProjectMetadata
unfolding convert_to_semver
get_trunk_project_metadata_for_version registry name version = do
  projects ← projects_at registry (path_of name (converted registry version))
  chosen name (converted registry version) projects

-- An error is logged, and the reconciliation is repeated.
abbrev pub or_again {a} : {A : Type a} → ℕ → Result TrunkError A → Result Action A
or_again seconds (ok x) = ok x
or_again seconds (err _) = err (requeue seconds)

unfoldable pub extension_name_matches_trunk_project : Registry → String → Result Action Bool
extension_name_matches_trunk_project registry name = do
  names ← or_again 300 (get_trunk_project_names registry)
  ok (list_contains names name)

abbrev pub has_extension : String → TrunkProjectMetadata → Bool
has_extension name project =
    any (λ (ext : TrunkExtensionMetadata). ext.extension_name == name) project.extensions

-- The loops over the projects and their extensions.
unfoldable pub owner : String → List TrunkProjectMetadata → Option String
owner name [] = none
owner name (project ∷ projects) =
    let rest = owner name projects in if has_extension name project then some project.name else rest

-- The projects are asked for twice, and the two requests may be answered apart.
unfoldable pub get_trunk_project_for_extension :
    Registry → Registry → String → Result Action (Option String)
unfolding owner extension_name_matches_trunk_project
get_trunk_project_for_extension first second name = do
  projects ← or_again 3 (get_trunk_projects first)
  matches ← extension_name_matches_trunk_project second name
  ok (if matches then some name else owner name projects)

-- No answer: a project without extensions, on which the code panics.
abbrev pub first_absent : List TrunkExtensionMetadata → Option Bool
first_absent [] = none
first_absent (ext ∷ _) = some ext.control_file.absent

unfoldable pub is_control_file_absent : Registry → String → Version → Result Action (Option Bool)
is_control_file_absent registry name version = do
  project ← or_again 3 (get_trunk_project_metadata_for_version registry name version)
  ok (first_absent project.extensions)

abbrev pub restarting_library : TrunkExtensionMetadata → Option String
restarting_library ext = elim ext.loadable_libraries [
  | none ↦ none
  | some libraries ↦
      Option.map (λ (library : TrunkLoadableLibrariesMetadata). library.library_name)
        (find (λ (library : TrunkLoadableLibrariesMetadata). library.requires_restart) libraries)
]

unfoldable pub get_loadable_library_name :
    Registry → String → Version → String → Result Action (Option String)
get_loadable_library_name registry name version extension_name = do
  project ← or_again 3 (get_trunk_project_metadata_for_version registry name version)
  ext ← ok_or (requeue 3) (
      find (λ (ext : TrunkExtensionMetadata). ext.extension_name == extension_name)
        project.extensions)
  ok (restarting_library ext)

unfoldable pub get_trunk_project_description :
    Registry → String → Version → Result Action (Option String)
get_trunk_project_description registry name version = do
  project ← or_again 3 (get_trunk_project_metadata_for_version registry name version)
  ok project.description

unfoldable pub get_latest_trunk_project_version : Registry → String → Result Action String
get_latest_trunk_project_version registry name = do
  project ← or_again 3 (get_latest_trunk_project_metadata registry name)
  ok project.version
