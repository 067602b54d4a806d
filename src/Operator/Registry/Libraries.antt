-- ===== src/Operator/Registry/Libraries.antt =====
-- The libraries that have to be loaded, which the operator keeps in a config map of the namespace
-- (tembo-operator/src/trunk.rs and configmap.rs).
use tembo.Prelude.{String, Option, none, some, List, [], ◌∷◌, ◌++◌, map, split_char, join}
use tembo.Prelude.Result.{Result, ok, err, ◌>>=◌}
use tembo.Prelude.Trace.{Trace, tell}
use tembo.Prelude.BTreeMap.{BTreeMap, get, insert}
use tembo.Operator.Api.{Action, requeue, KubeError}
use tembo.Operator.Registry.{
  Registry, TrunkError, TrunkProjectMetadata, TrunkExtensionMetadata,
  TrunkLoadableLibrariesMetadata, get_trunk_projects,
}

pub record ConfigMap : Type 0 where
  pub name : Option String
  pub labels : Option (BTreeMap String)
  pub entries : Option (BTreeMap String)

pub data Call : Type 0 where
  get_config_map : (namespace name : String) → Call
  patch_config_map : (namespace name : String) → ConfigMap → Call

abbrev pub config_map : String → BTreeMap String → ConfigMap
config_map cm_name entries = record {
  name = some cm_name;
  labels = some (("cnpg.io/reload", "true") ∷ []);
  entries = some entries;
}

-- The answer of the API is only logged.
unfoldable pub apply_configmap : String → String → BTreeMap String → Trace Call KubeError (Unit {0})
apply_configmap namespace cm_name entries =
    tell (patch_config_map namespace cm_name (config_map cm_name entries))

abbrev pub flat_map {a b} : {A : Type a} {B : Type b} → (A → List B) → List A → List B
flat_map f [] = []
flat_map f (x ∷ xs) = f x ++ flat_map f xs

abbrev pub library_names : TrunkExtensionMetadata → List String
library_names ext = elim ext.loadable_libraries [
  | none ↦ []
  | some libraries ↦
      map (λ (library : TrunkLoadableLibrariesMetadata). library.library_name) libraries
]

unfoldable pub requires_load_list_from_trunk : Registry → Result TrunkError (List String)
requires_load_list_from_trunk registry = do
  projects ← get_trunk_projects registry
  ok (
      flat_map library_names
        (flat_map (λ (project : TrunkProjectMetadata). project.extensions) projects))

abbrev pub trunk_configmap_name : String
trunk_configmap_name = "trunk-metadata"

-- The libraries that the registry lists cannot be had: the config map may be there already.
abbrev pub without_registry : String → Result KubeError ConfigMap → Trace Call Action (Unit {0})
without_registry namespace (ok _) = (get_config_map namespace trunk_configmap_name ∷ [], ok tt)
without_registry namespace (err _) =
    (get_config_map namespace trunk_configmap_name ∷ [], err (requeue 300))

abbrev pub applied_or_again : Trace Call KubeError (Unit {0}) → Trace Call Action (Unit {0})
applied_or_again (asked, ok _) = (asked, ok tt)
applied_or_again (asked, err _) = (asked, err (requeue 300))

abbrev pub updated :
    String
    → Result KubeError ConfigMap
    → Result TrunkError (List String)
    → Trace Call Action (Unit {0})
updated namespace found (err _) = without_registry namespace found
updated namespace found (ok libraries) =
    applied_or_again
      (apply_configmap namespace trunk_configmap_name (insert "libraries" (join "," libraries) []))

-- The second argument is what a `get` of the config map answers.
unfoldable pub reconcile_trunk_configmap :
    Registry → Result KubeError ConfigMap → String → Trace Call Action (Unit {0})
reconcile_trunk_configmap registry found namespace =
    updated namespace found (requires_load_list_from_trunk registry)

pub record ExtensionRequiresLoad : Type 0 where
  pub name : String
  pub library_name : String

abbrev pub extra_extensions_require_load : List ExtensionRequiresLoad
extra_extensions_require_load = record { name = "pg_partman"; library_name = "pg_partman_bgw" } ∷ []

unfoldable pub insert_libraries : List String → BTreeMap String → BTreeMap String
insert_libraries [] m = m
insert_libraries (library ∷ libraries) m = insert_libraries libraries (insert library library m)

unfoldable pub insert_extra : List ExtensionRequiresLoad → BTreeMap String → BTreeMap String
insert_extra [] m = m
insert_extra (extra ∷ rest) m = insert_extra rest (insert extra.name extra.library_name m)

abbrev pub libraries_map : String → BTreeMap String
libraries_map libraries =
    insert_extra extra_extensions_require_load (insert_libraries (split_char b',' libraries) [])

abbrev pub libraries_in : BTreeMap String → Result Action (BTreeMap String)
libraries_in entries = elim (get "libraries" entries) [
  | some libraries ↦ ok (libraries_map libraries)
  | none ↦ err (requeue 300)
]

abbrev pub entries_of : ConfigMap → Result Action (BTreeMap String)
entries_of found = elim found.entries [
  | some entries ↦ libraries_in entries
  | none ↦ err (requeue 300)
]

-- The argument is what a `get` of the config map answers.
unfoldable pub extensions_that_require_load :
    Result KubeError ConfigMap → Result Action (BTreeMap String)
extensions_that_require_load (ok found) = entries_of found
extensions_that_require_load (err _) = err (requeue 300)
