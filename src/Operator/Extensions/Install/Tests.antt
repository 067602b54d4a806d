-- ===== src/Operator/Extensions/Install/Tests.antt =====
-- The theorems on installation at concrete inputs (tembo-operator/src/extensions/install.rs).
use tembo.Prelude.{any, opt_eq, refl, ◌≡◌, true, false, none, some, List, [], ◌∷◌, list_contains}
use tembo.Prelude.Result.{ok}
use tembo.Operator.Types.{default_spec, TrunkInstall, TrunkInstallStatus, CoreDb, default_status}
use tembo.Operator.Extensions.Install.{Pod, Calls, Cluster, install_extensions_to_pod}
use tembo.Operator.Extensions.Trunk.Installed.{is_on}
use tembo.Operator.Extensions.Install.Run.{recorded, install_extensions_to_pod-recorded}

abbrev two_pods : List Pod
two_pods = record { name = some "db-1" } ∷ record { name = none } ∷ []

abbrev pgmq_on : TrunkInstallStatus
pgmq_on = record {
  name = "pgmq";
  version = some "1.0.0";
  error = false;
  loading = false;
  error_message = none;
  installed_to_pods = some ("db-1" ∷ []);
}

abbrev cluster : Cluster
cluster = record {
  status = some (record default_status { trunk_installs = some (pgmq_on ∷ []) });
  fenced = some ("db-2" ∷ []);
}

-- An API server and a pod that do what they are asked.
abbrev calls : Calls
calls = record {
  get = λ _. ok tt;
  patch = λ _. ok tt;
  get_latest_trunk_project_version = λ _. ok "1.1.0";
  log_pod_status = λ _. ok tt;
  exec = λ _ _. ok (record { success = true; stdout = none; stderr = none });
  get_fenced_pods = λ _. ok tt;
  unfence_pod = λ _. ok tt;
}

abbrev wanted : TrunkInstall
wanted = record { name = "pgmq"; version = some "1.0.0" }

abbrev instance_1 : CoreDb
instance_1 = record {
  name = some "db";
  namespace = some "db";
  annotations = none;
  spec = record default_spec {
    extensions = [];
    trunk_installs = wanted ∷ [];
    stop = false;
    stack = none;
    runtime_config = none;
    override_configs = none;
  };
  status = cluster.status;
}

recorded_test : any (is_on "pgmq" (some "1.0.0") "db-1") (recorded cluster) ≡ true
unfolding list_contains opt_eq
recorded_test = refl

install_extensions_to_pod-recorded_example :
    any
      (is_on "pgmq" (some "1.0.0") "db-1")
      (recorded (install_extensions_to_pod calls instance_1 (wanted ∷ []) "db-2" cluster).1)
    ≡ true
install_extensions_to_pod-recorded_example =
    install_extensions_to_pod-recorded calls instance_1 (wanted ∷ []) "db-2" cluster "pgmq"
      (some "1.0.0") "db-1" recorded_test
