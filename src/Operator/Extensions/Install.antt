-- ===== src/Operator/Extensions/Install.antt =====
-- The pods that packages are installed into (tembo-operator/src/extensions/install.rs). Of a pod
-- there is its name; the set of names is a list.
pub mod Pods
pub mod Run
mod Tests
use tembo.Prelude.{
  ℕ, String, Bool, true, false, not, ◌&&◌, Option, none, some, List, [], ◌∷◌, ◌++◌, list_contains,
  ◌==◌, unwrap_or, join, retain, if◌then◌else◌,
}
use mathlib.Core.Option
use tembo.Prelude.Result.{Result, ok, err}
use tembo.Operator.Types.{TrunkInstall, TrunkInstallStatus, CoreDbStatus, CoreDb, default_status}
use tembo.Operator.Extensions.Trunk.{update_trunk_installs, without_installs, status_installs}

pub record Pod : Type 0 where
  pub name : Option String

pub record PodList : Type 0 where
  pub all_pods : List Pod
  pub unique_pod_names : List String

-- One more pod, if its name is new.
abbrev pub insert_named : PodList → String → Pod → PodList
insert_named pods name pod = if list_contains pods.unique_pod_names name then pods else record {
  all_pods = pods.all_pods ++ pod ∷ [];
  unique_pod_names = name ∷ pods.unique_pod_names;
}

abbrev pub insert_non_fenced : PodList → Pod → Option String → PodList
insert_non_fenced pods pod none = pods
insert_non_fenced pods pod (some name) = insert_named pods name pod

unfoldable pub add_non_fenced : PodList → List Pod → PodList
add_non_fenced pods [] = pods
add_non_fenced pods (pod ∷ rest) = add_non_fenced (insert_non_fenced pods pod pod.name) rest

unfoldable pub add_fenced : PodList → List String → PodList
add_fenced pods [] = pods
add_fenced pods (name ∷ names) =
    add_fenced (insert_named pods name (record { name = some name })) names

abbrev pub none_yet : PodList
none_yet = record { all_pods = []; unique_pod_names = [] }

unfoldable pub merge_and_deduplicate_pods : List Pod → Option (List String) → List Pod
merge_and_deduplicate_pods non_fenced_pods fenced_names =
    (add_fenced (add_non_fenced none_yet non_fenced_pods) (unwrap_or [] fenced_names)).all_pods

-- The controller's `Action::requeue`, in seconds.
pub data Action : Type 0 where
  requeue : ℕ → Action

pub record ExecOutput : Type 0 where
  pub success : Bool
  pub stdout : Option String
  pub stderr : Option String

-- What is in the cluster: the status of the instance, and the pods that are fenced.
pub record Cluster : Type 0 where
  pub status : Option CoreDbStatus
  pub fenced : Option (List String)

-- The calls that leave this code: the API server, which may refuse a read or a patch, the registry,
-- and a pod.
pub record Calls : Type 0 where
  pub get : Cluster → Result String (Unit {0})
  pub patch : CoreDbStatus → Result Action (Unit {0})
  pub get_latest_trunk_project_version : String → Result String String
  pub log_pod_status : String → Result String (Unit {0})
  pub exec : String → List String → Result String ExecOutput
  pub get_fenced_pods : Cluster → Result Action (Unit {0})
  pub unfence_pod : String → Result Action (Unit {0})

abbrev pub Step : Type 0 → Type 0
Step A = Cluster → Result Action A × Cluster

-- `patch_cdb_status_merge` with the trunk installs, in the status that was read before: a merge
-- patch that names every field.
abbrev pub put_installs : {A : Type 0} → Calls → A → CoreDbStatus → List TrunkInstallStatus → Step A
put_installs calls x status installs cluster =
    elim (calls.patch (record status { trunk_installs = some installs })) [
      | err action ↦ (err action, cluster)
      | ok _ ↦ (
        ok x,
        record cluster { status = some (record status { trunk_installs = some installs }) },
      )
    ]

unfoldable pub add_trunk_install_to_status :
    Calls → TrunkInstallStatus → Step (List TrunkInstallStatus)
add_trunk_install_to_status calls new cluster = elim (calls.get cluster) [
  | err e ↦ (err (requeue 10), cluster)
  | ok _ ↦
      let status = unwrap_or default_status cluster.status in
      let updated = update_trunk_installs (unwrap_or [] status.trunk_installs) new in
      put_installs calls updated status updated cluster
]

-- Without a list, and with an empty one, there is nothing to remove.
abbrev pub remove_listed :
    Calls → List String → CoreDbStatus → Option (List TrunkInstallStatus) → Step (Unit {0})
remove_listed calls names status none cluster = (ok tt, cluster)
remove_listed calls names status (some []) cluster = (ok tt, cluster)
remove_listed calls names status (some (t ∷ ts)) cluster =
    put_installs calls tt status (without_installs names (t ∷ ts)) cluster

unfoldable pub remove_trunk_installs_from_status : Calls → List String → Step (Unit {0})
remove_trunk_installs_from_status calls [] cluster = (ok tt, cluster)
remove_trunk_installs_from_status calls (name ∷ names) cluster = elim (calls.get cluster) [
  | err e ↦ (err (requeue 10), cluster)
  | ok _ ↦
      let status = unwrap_or default_status cluster.status in
      remove_listed calls (name ∷ names) status status.trunk_installs cluster
]

abbrev installed_status :
    TrunkInstall → String → Option String → Bool → Option String → TrunkInstallStatus
installed_status ext pod_name version error error_message = record {
  name = ext.name;
  version = version;
  error = error;
  loading = false;
  error_message = error_message;
  installed_to_pods = some (pod_name ∷ []);
}

abbrev output_of : ExecOutput → String
output_of result =
    join "\n" (
      unwrap_or "Nothing in stdout" result.stdout
      ∷ unwrap_or "Nothing in stderr" result.stderr
      ∷ [])

abbrev status_of_exec :
    TrunkInstall → String → Result String ExecOutput → Result Bool TrunkInstallStatus
status_of_exec ext pod_name (err e) = err true
status_of_exec ext pod_name (ok result) = ok (
    if result.success
    then installed_status ext pod_name ext.version false none
    else installed_status ext pod_name ext.version true (some (output_of result)))

abbrev install_command : String → String → List String
install_command name version =
    "trunk" ∷ "install" ∷ "-r https://registry.pgtrunk.io" ∷ name ∷ "--version" ∷ version ∷ []

-- A pod that is not up yet is not tried.
abbrev execute_version : Calls → TrunkInstall → String → String → Result Bool TrunkInstallStatus
execute_version calls ext pod_name version = elim (calls.log_pod_status pod_name) [
  | err e ↦ err true
  | ok _ ↦ status_of_exec ext pod_name (calls.exec pod_name (install_command ext.name version))
]

abbrev execute_latest :
    Calls → TrunkInstall → String → Result String String → Result Bool TrunkInstallStatus
execute_latest calls ext pod_name (ok latest_version) =
    execute_version calls ext pod_name latest_version
execute_latest calls ext pod_name (err e) =
    ok (installed_status ext pod_name none true (some "Missing version"))

abbrev version_or_latest :
    Calls → TrunkInstall → String → Option String → Result Bool TrunkInstallStatus
version_or_latest calls ext pod_name (some version) = execute_version calls ext pod_name version
version_or_latest calls ext pod_name none =
    execute_latest calls ext pod_name (calls.get_latest_trunk_project_version ext.name)

unfoldable pub execute_extension_install_command :
    Calls → TrunkInstall → String → Result Bool TrunkInstallStatus
execute_extension_install_command calls ext pod_name =
    version_or_latest calls ext pod_name ext.version

abbrev pub initialize_trunk_install_statuses : CoreDb → List TrunkInstallStatus
initialize_trunk_install_statuses cdb = unwrap_or [] (status_installs cdb.status)

-- What the loop over the packages keeps: the statuses, and whether to requeue.
abbrev pub Progress : Type 0
Progress = List TrunkInstallStatus × Bool

abbrev pub after_add :
    Progress → Result Action (List TrunkInstallStatus) × Cluster → Result Action Progress × Cluster
after_add progress (err action, cluster) = (err action, cluster)
after_add progress (ok statuses, cluster) = (ok (statuses, progress.1), cluster)

-- One round of the loop.
abbrev pub after_execute : Calls → Progress → Result Bool TrunkInstallStatus → Step Progress
after_execute calls progress (err should_requeue) cluster =
    (ok (progress.0, should_requeue), cluster)
after_execute calls progress (ok status) cluster =
    after_add progress (add_trunk_install_to_status calls status cluster)

unfoldable pub install_one : Calls → String → TrunkInstall → Progress → Step Progress
install_one calls pod_name ext progress cluster =
    after_execute calls progress (execute_extension_install_command calls ext pod_name) cluster

-- `?` after an operation on the cluster.
abbrev pub then_step :
    {A B : Type 0} → Result Action A × Cluster → (A → Step B) → Result Action B × Cluster
then_step (err action, cluster) next = (err action, cluster)
then_step (ok x, cluster) next = next x cluster

unfoldable pub install_all : Calls → String → List TrunkInstall → Progress → Step Progress
install_all calls pod_name [] progress cluster = (ok progress, cluster)
install_all calls pod_name (ext ∷ exts) progress cluster =
    then_step (install_one calls pod_name ext progress cluster)
      (λ later. install_all calls pod_name exts later)

abbrev pub is_fenced : String → Option (List String) → Bool
is_fenced pod_name none = false
is_fenced pod_name (some fenced_pods) = list_contains fenced_pods pod_name

-- `get_fenced_pods`
abbrev pub fenced_in : Calls → Step (Option (List String))
fenced_in calls cluster = elim (calls.get_fenced_pods cluster) [
  | err action ↦ (err action, cluster)
  | ok _ ↦ (ok cluster.fenced, cluster)
]

unfoldable pub is_pod_fenced : Calls → String → Step Bool
is_pod_fenced calls pod_name cluster =
    then_step (fenced_in calls cluster) (λ fenced_pods c. (ok (is_fenced pod_name fenced_pods), c))

-- `unfence_pod`
abbrev pub unfenced : Calls → String → Step (Unit {0})
unfenced calls pod_name cluster = elim (calls.unfence_pod pod_name) [
  | err action ↦ (err action, cluster)
  | ok _ ↦ (
    ok tt,
    record cluster {
      fenced = Option.map (λ ps. retain (λ p. not (p == pod_name)) ps) cluster.fenced;
    },
  )
]

abbrev pub unfence_if : Calls → String → Bool → Step (Unit {0})
unfence_if calls pod_name true cluster = unfenced calls pod_name cluster
unfence_if calls pod_name false cluster = (ok tt, cluster)

-- What follows the loop: an error asks for another round, and else the pod is unfenced.
abbrev pub conclude : Calls → String → Progress → Step (List TrunkInstallStatus)
conclude calls pod_name (statuses, true) cluster = (err (requeue 10), cluster)
conclude calls pod_name (statuses, false) cluster =
    then_step (is_pod_fenced calls pod_name cluster)
      (λ fenced c. then_step (unfence_if calls pod_name fenced c) (λ _ d. (ok statuses, d)))

abbrev pub install_in :
    Calls → CoreDb → Option String → List TrunkInstall → String → Step (List TrunkInstallStatus)
install_in calls cdb none trunk_installs pod_name cluster = (err (requeue 300), cluster)
install_in calls cdb (some namespace) [] pod_name cluster =
    (ok (initialize_trunk_install_statuses cdb), cluster)
install_in calls cdb (some namespace) (ext ∷ exts) pod_name cluster =
    then_step
      (install_all calls pod_name (ext ∷ exts) (initialize_trunk_install_statuses cdb, false)
        cluster)
      (λ progress. conclude calls pod_name progress)

unfoldable pub install_extensions_to_pod :
    Calls → CoreDb → List TrunkInstall → String → Step (List TrunkInstallStatus)
install_extensions_to_pod calls cdb trunk_installs pod_name cluster =
    install_in calls cdb cdb.namespace trunk_installs pod_name cluster
