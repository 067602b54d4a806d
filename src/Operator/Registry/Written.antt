-- ===== src/Operator/Registry/Written.antt =====
-- What is written into the config map is read from it again
-- (tembo-operator/src/trunk.rs).

use tembo.Prelude.{
  String, ◌≡◌, refl, ap, ◌↔◌, Option, none, some, List, [], ◌∷◌, join, list_contains, ◌==◌, arith,
  eq_iff, All, if◌then◌else◌,
}
use tembo.Prelude.Text.Split.{IsPart, split-join}
use tembo.Prelude.Result.{Result, ok, err, ◌>>=◌}
use tembo.Prelude.BTreeMap.{BTreeMap, get, insert, get-insert}
use tembo.Operator.Api.{requeue, KubeError}
use tembo.Operator.Registry.{Registry, TrunkError}
use tembo.Operator.Registry.Libraries.{
  ConfigMap, patch_config_map, config_map, requires_load_list_from_trunk, trunk_configmap_name,
  reconcile_trunk_configmap, insert_libraries, insert_extra, extensions_that_require_load,
  libraries_map, apply_configmap, updated,
}

get-insert_libraries :
    (j : String) (libraries : List String) (m : BTreeMap String)
    → get j (insert_libraries libraries m) ≡ (if list_contains libraries j then some j else get j m)
unfolding insert_libraries list_contains
get-insert_libraries j [] m = refl
get-insert_libraries j (w ∷ ws) m =
    ground (arith, get-insert_libraries j ws (insert w w m), get-insert w j w m, eq_iff w j)

-- What the map of the extensions that require a library has for an extension.
unfoldable pub library_of : List String → String → Option String
library_of libraries j =
    if "pg_partman" == j
    then some "pg_partman_bgw"
    else if list_contains libraries j
    then some j
    else none

get-libraries_map :
    (j w : String) (ws : List String)
    → All IsPart (w ∷ ws)
    → get j (libraries_map (join "," (w ∷ ws))) ≡ library_of (w ∷ ws) j
unfolding insert_extra library_of get
get-libraries_map j w ws h = rw (split-join w ws h) (
    rw (get-insert "pg_partman" j "pg_partman_bgw" (insert_libraries (w ∷ ws) []))
      (rw (get-insert_libraries j (w ∷ ws) []) refl))

-- What `reconcile_trunk_configmap` writes for libraries, of which there is one at least.
abbrev pub written : List String → ConfigMap
written libraries = config_map trunk_configmap_name (("libraries", join "," libraries) ∷ [])

-- When the registry lists libraries, at least one and none with a comma in its name, the config
-- map is written, and from what is written `extensions_that_require_load` reads for pg_partman the
-- library pg_partman_bgw, for each other name that was listed the name itself, and nothing else.
pub extensions_that_require_load-written :
    (registry : Registry) (found : Result KubeError ConfigMap) (namespace j w : String)
    (ws : List String)
    → requires_load_list_from_trunk registry ≡ ok (w ∷ ws)
    → All IsPart (w ∷ ws)
    → (reconcile_trunk_configmap registry found namespace
        ≡ (patch_config_map namespace trunk_configmap_name (written (w ∷ ws)) ∷ [], ok tt))
      × ((extensions_that_require_load (ok (written (w ∷ ws))) >>= λ m. ok (get j m))
          ≡ ok (library_of (w ∷ ws) j))
unfolding reconcile_trunk_configmap extensions_that_require_load insert apply_configmap get
extensions_that_require_load-written registry found namespace j w ws h k =
    (ap (updated namespace found) h, rw (get-libraries_map j w ws k) refl)

updated-err_iff :
    (namespace : String) (found : Result KubeError ConfigMap)
    (libraries : Result TrunkError (List String))
    → ((updated namespace found libraries).1 ≡ err (requeue 300))
      ↔ ((problem : TrunkError) × (libraries ≡ err problem))
        × ((error : KubeError) × (found ≡ err error))
unfolding apply_configmap
updated-err_iff namespace found (ok libraries) = ((λ k. cc), (λ k. cc))
updated-err_iff namespace (ok map) (err problem) = ((λ k. cc), (λ k. cc))
updated-err_iff namespace (err error) (err problem) =
    ((λ k. ((problem, refl), (error, refl))), (λ k. refl))

-- The reconciliation of the config map fails exactly if the libraries cannot be had from the
-- registry and the config map cannot be read: that it cannot be written is no error.
pub reconcile_trunk_configmap-err_iff :
    (registry : Registry) (found : Result KubeError ConfigMap) (namespace : String)
    → ((reconcile_trunk_configmap registry found namespace).1 ≡ err (requeue 300))
      ↔ ((problem : TrunkError) × (requires_load_list_from_trunk registry ≡ err problem))
        × ((error : KubeError) × (found ≡ err error))
unfolding reconcile_trunk_configmap
reconcile_trunk_configmap-err_iff registry found namespace =
    updated-err_iff namespace found (requires_load_list_from_trunk registry)
