-- ===== src/Operator/Extensions/Trunk.antt =====
-- Packages from the trunk registry, in the status of an instance
-- (tembo-operator/src/extensions/kubernetes_queries.rs and install.rs).
pub mod Installed
pub mod Removed
use tembo.Prelude.{
  String, Bool, true, false, not, ◌&&◌, Option, none, some, List, [], ◌∷◌, ◌++◌, map, ◌==◌, opt_eq,
  if◌then◌else◌, any, retain, dedup_by, list_contains, unwrap_or, str_le,
}
use tembo.Prelude.Sort
use tembo.Operator.Types.{TrunkInstall, TrunkInstallStatus, CoreDb, CoreDbStatus}

abbrev pub name_le : TrunkInstallStatus → TrunkInstallStatus → Bool
name_le a b = str_le a.name b.name

abbrev pub same_name : TrunkInstallStatus → TrunkInstallStatus → Bool
same_name a b = a.name == b.name

-- The lists of pods are joined, sorted, and freed of what stands there twice.
unfoldable pub add_pods : Option (List String) → Option (List String) → Option (List String)
unfolding Sort.sort_by dedup_by
add_pods installed none = some (unwrap_or [] installed)
add_pods installed (some new_instances) =
    some (dedup_by ◌==◌ (Sort.sort_by str_le (unwrap_or [] installed ++ new_instances)))

-- One round of the loop over the statuses that are there.
unfoldable pub update_existing : TrunkInstallStatus → TrunkInstallStatus → TrunkInstallStatus
unfolding add_pods opt_eq
update_existing new existing =
    if existing.name == new.name && opt_eq existing.version new.version
    then record existing {
      installed_to_pods = add_pods existing.installed_to_pods new.installed_to_pods;
    }
    else existing

-- The new status goes behind the others, unless its name is there.
abbrev pub push_new : TrunkInstallStatus → List TrunkInstallStatus → List TrunkInstallStatus
push_new new updated =
    if any (λ status. status.name == new.name) updated then updated else updated ++ new ∷ []

unfoldable pub update_trunk_installs :
    List TrunkInstallStatus → TrunkInstallStatus → List TrunkInstallStatus
update_trunk_installs current new =
    Sort.sort_by name_le (push_new new (map (update_existing new) current))

-- The loop of `remove_trunk_installs_from_status`.
unfoldable pub retain_all : List String → List TrunkInstallStatus → List TrunkInstallStatus
unfolding retain
retain_all [] statuses = statuses
retain_all (name ∷ names) statuses = retain_all names (retain (λ t. not (t.name == name)) statuses)

-- What it then puts into the status.
unfoldable pub without_installs : List String → List TrunkInstallStatus → List TrunkInstallStatus
without_installs names current =
    dedup_by same_name (Sort.sort_by name_le (retain_all names current))

abbrev pub status_installs : Option CoreDbStatus → Option (List TrunkInstallStatus)
status_installs none = none
status_installs (some status) = status.trunk_installs

-- `find_trunk_installs_to_remove_from_status`
unfoldable pub to_remove : List TrunkInstall → List TrunkInstallStatus → List String
to_remove wanted [] = []
to_remove wanted (status ∷ statuses) =
    let rest = to_remove wanted statuses in
    if not (any (λ ext. ext.name == status.name) wanted) then status.name ∷ rest else rest

unfoldable pub find_trunk_installs_to_remove_from_status : CoreDb → List String
unfolding to_remove
find_trunk_installs_to_remove_from_status cdb =
    to_remove cdb.spec.trunk_installs (unwrap_or [] (status_installs cdb.status))

-- The test of `find_trunk_installs_to_pod`: the package is on the pod, and there was no error.
unfoldable pub is_installed_on : String → TrunkInstall → TrunkInstallStatus → Bool
unfolding list_contains
is_installed_on pod ext status =
    ext.name == status.name
    && not status.error
    && list_contains (unwrap_or [] status.installed_to_pods) pod

unfoldable pub find_trunk_installs_to_pod : CoreDb → String → List TrunkInstall
unfolding is_installed_on retain
find_trunk_installs_to_pod cdb pod_name =
    retain
      (λ ext. not (any (is_installed_on pod_name ext) (unwrap_or [] (status_installs cdb.status))))
      cdb.spec.trunk_installs
