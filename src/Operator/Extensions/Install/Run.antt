-- ===== src/Operator/Extensions/Install/Run.antt =====
-- What a run of the installation leaves in the status (tembo-operator/src/extensions/install.rs,
-- kubernetes_queries.rs).
use tembo.Prelude.{
  String, ◌≡◌, refl, Bool, true, false, Option, none, some, List, [], ◌∷◌, any, unwrap_or, arith,
}
use tembo.Prelude.Result.{Result, ok, err}
use tembo.Operator.Types.{TrunkInstall, TrunkInstallStatus, CoreDbStatus, CoreDb, default_status}
use tembo.Operator.Extensions.Trunk.{status_installs}
use tembo.Operator.Extensions.Trunk.Installed.{is_on, update_trunk_installs-is_on}
use tembo.Operator.Extensions.Install.{
  Calls, Cluster, Action, Progress, execute_extension_install_command, add_trunk_install_to_status,
  after_execute, after_add, conclude, is_pod_fenced, initialize_trunk_install_statuses, install_in,
  install_extensions_to_pod, install_one, install_all, then_step,
}

-- The installs that are recorded in the cluster.
abbrev pub recorded : Cluster → List TrunkInstallStatus
recorded cluster = unwrap_or [] (status_installs cluster.status)

-- What is recorded for a pod in the first is so in the second.
abbrev pub KeepsInstalls : Cluster → Cluster → Type 0
KeepsInstalls before after =
    (name : String) (version : Option String) (pod : String)
    → any (is_on name version pod) (recorded before) ≡ true
    → any (is_on name version pod) (recorded after) ≡ true

recorded_default :
    (o : Option CoreDbStatus)
    → unwrap_or [] (unwrap_or default_status o).trunk_installs ≡ unwrap_or [] (status_installs o)
recorded_default none = refl
recorded_default (some status) = refl

module _ (calls : Calls) where
  add_trunk_install_to_status-KeepsInstalls :
      (new : TrunkInstallStatus) (cluster : Cluster)
      → KeepsInstalls cluster (add_trunk_install_to_status calls new cluster).1
  unfolding add_trunk_install_to_status
  add_trunk_install_to_status-KeepsInstalls new cluster name version pod h = ground (
    arith,
    recorded_default cluster.status,
    update_trunk_installs-is_on
        (unwrap_or [] (unwrap_or default_status cluster.status).trunk_installs) new name version
        pod,
  )

  KeepsInstalls-trans :
      (a b c : Cluster) → KeepsInstalls a b → KeepsInstalls b c → KeepsInstalls a c
  KeepsInstalls-trans a b c h k name version pod p = k name version pod (h name version pod p)

  after_execute-KeepsInstalls :
      (progress : Progress) (r : Result Bool TrunkInstallStatus) (cluster : Cluster)
      → KeepsInstalls cluster (after_execute calls progress r cluster).1
  after_execute-KeepsInstalls progress (err e) cluster = λ name version pod h. h
  after_execute-KeepsInstalls progress (ok status) cluster =
      go (add_trunk_install_to_status calls status cluster)
        (add_trunk_install_to_status-KeepsInstalls status cluster)
    where
      go :
          (added : Result Action (List TrunkInstallStatus) × Cluster)
          → KeepsInstalls cluster added.1
          → KeepsInstalls cluster (after_add progress added).1
      go (err action, after) h = h
      go (ok statuses, after) h = h

  then_step-KeepsInstalls :
      {A B : Type 0} (start : Cluster) (r : Result Action A × Cluster)
      (next : A → Cluster → Result Action B × Cluster)
      → KeepsInstalls start r.1
      → ((x : A) (c : Cluster) → KeepsInstalls c (next x c).1)
      → KeepsInstalls start (then_step r next).1
  then_step-KeepsInstalls start (err action, c) next h k = h
  then_step-KeepsInstalls start (ok x, c) next h k =
      KeepsInstalls-trans start c (next x c).1 h (k x c)

  install_one-KeepsInstalls :
      (pod_name : String) (ext : TrunkInstall) (progress : Progress) (cluster : Cluster)
      → KeepsInstalls cluster (install_one calls pod_name ext progress cluster).1
  unfolding install_one
  install_one-KeepsInstalls pod_name ext progress cluster =
      after_execute-KeepsInstalls progress (execute_extension_install_command calls ext pod_name)
        cluster

  install_all-KeepsInstalls :
      (pod_name : String) (exts : List TrunkInstall) (progress : Progress) (cluster : Cluster)
      → KeepsInstalls cluster (install_all calls pod_name exts progress cluster).1
  unfolding install_all
  install_all-KeepsInstalls pod_name [] progress cluster = λ name version pod h. h
  install_all-KeepsInstalls pod_name (ext ∷ exts) progress cluster =
      then_step-KeepsInstalls cluster (install_one calls pod_name ext progress cluster)
        (λ later. install_all calls pod_name exts later)
        (install_one-KeepsInstalls pod_name ext progress cluster)
        (λ later c. install_all-KeepsInstalls pod_name exts later c)

  conclude-KeepsInstalls :
      (pod_name : String) (progress : Progress) (cluster : Cluster)
      → KeepsInstalls cluster (conclude calls pod_name progress cluster).1
  unfolding is_pod_fenced
  conclude-KeepsInstalls pod_name progress cluster name version pod h = ground arith

  install_extensions_to_pod-KeepsInstalls :
      (cdb : CoreDb) (trunk_installs : List TrunkInstall) (pod_name : String) (cluster : Cluster)
      → KeepsInstalls cluster
          (install_extensions_to_pod calls cdb trunk_installs pod_name cluster).1
  unfolding install_extensions_to_pod
  install_extensions_to_pod-KeepsInstalls cdb exts pod_name cluster = go cdb.namespace exts
    where
      go :
          (namespace : Option String) (exts : List TrunkInstall)
          → KeepsInstalls cluster (install_in calls cdb namespace exts pod_name cluster).1
      go none exts = λ name version pod h. h
      go (some namespace) [] = λ name version pod h. h
      go (some namespace) (ext ∷ exts) =
          then_step-KeepsInstalls cluster
            (install_all calls pod_name (ext ∷ exts) (initialize_trunk_install_statuses cdb, false)
              cluster)
            (λ progress. conclude calls pod_name progress)
            (install_all-KeepsInstalls pod_name (ext ∷ exts) _ cluster)
            (λ progress c. conclude-KeepsInstalls pod_name progress c)

  -- What is recorded as installed in a pod is so after an installation, whatever fails on the way.
  pub install_extensions_to_pod-recorded :
      (cdb : CoreDb) (trunk_installs : List TrunkInstall) (pod_name : String) (cluster : Cluster)
      (name : String) (version : Option String) (pod : String)
      → any (is_on name version pod) (recorded cluster) ≡ true
      → any
          (is_on name version pod)
          (recorded (install_extensions_to_pod calls cdb trunk_installs pod_name cluster).1)
        ≡ true
  install_extensions_to_pod-recorded cdb trunk_installs pod_name cluster =
      install_extensions_to_pod-KeepsInstalls cdb trunk_installs pod_name cluster
