-- ===== src/Conductor/Library/Instance.antt =====
-- The connection to an instance, its restart and the schedule of its backups
-- (conductor/src/lib.rs).
use Prim.Native.String
use tembo.Prelude.{
  ℕ, String, Bool, true, false, ◌%◌, Option, none, some, [], ◌==◌, unwrap_or, if◌then◌else◌, not,
}
use tembo.Prelude.Int.{show}
use tembo.Prelude.Result.{Result, ok, ok_or, ◌>>=◌}
use tembo.Prelude.Trace
use tembo.Prelude.Trace.{Trace, pure, lift, call}
use tembo.Prelude.BTreeMap.{BTreeMap, get}
use tembo.Operator.Types.{CoreDb, CoreDbSpec}
use tembo.Conductor.Types.{
  ConductorError, postgres_connection_info_not_found, secret_data_not_found, ConnectionInfo,
}
use tembo.Conductor.Library.{Cluster, Call, patch_restarted_at, kube, ask}

abbrev pub Secret : Type 0
Secret = Option (BTreeMap String)

abbrev pub found : Option Secret → Result ConductorError Secret
found secret = ok_or postgres_connection_info_not_found secret

unfoldable pub get_secret_for_db : Cluster → String → Result ConductorError (Secret × Secret)
get_secret_for_db cluster name = do
  answer ← kube (cluster.get_secret name (String.◌++◌ name "-connection"))
  postgres_user_secret ← found answer
  app_answer ← kube (cluster.get_secret name (String.◌++◌ name "-app"))
  app_user_secret ← found app_answer
  ok (postgres_user_secret, app_user_secret)

unfoldable pub get_field_value_from_secret :
    BTreeMap String → Result ConductorError (String × String)
get_field_value_from_secret entries = do
  user ← ok_or postgres_connection_info_not_found (get "username" entries)
  password ← ok_or postgres_connection_info_not_found (get "password" entries)
  ok (user, password)

unfoldable pub get_pg_conn :
    Cluster → String → String → CoreDbSpec → Result ConductorError ConnectionInfo
unfolding get_secret_for_db get_field_value_from_secret
get_pg_conn cluster name basedomain spec = do
  secrets ← get_secret_for_db cluster name
  postgres_entries ← ok_or (secret_data_not_found "postgres_user_secret") secrets.0
  app_entries ← ok_or (secret_data_not_found "app_user_secret") secrets.1
  postgres ← get_field_value_from_secret postgres_entries
  app ← get_field_value_from_secret app_entries
  ok (record {
    host = String.◌++◌ name (String.◌++◌ "." basedomain);
    pooler_host =
        if spec.connection_pooler.enabled
        then some (String.◌++◌ name (String.◌++◌ "-pooler." basedomain))
        else none;
    port = 5432;
    user = postgres.0;
    password = postgres.1;
    app_user = app.0;
    app_password = app.1;
  })

abbrev pub restarted_at : CoreDb → Option String
restarted_at coredb = get "kubectl.kubernetes.io/restartedAt" (unwrap_or [] coredb.annotations)

-- The annotation is there with another time, or not there.
abbrev pub differs : String → Option String → Bool
differs restart none = true
differs restart (some annotation) = not (annotation == restart)

abbrev pub restart_if : Cluster → String → String → String → Bool → Trace Call ConductorError Bool
restart_if cluster namespace cluster_name restart false = pure false
restart_if cluster namespace cluster_name restart true =
    Trace.◌>>◌ (ask cluster (patch_restarted_at namespace cluster_name restart)) (pure true)

unfoldable pub restart_coredb : Cluster → String → String → ℕ → Trace Call ConductorError Bool
restart_coredb cluster namespace cluster_name msg_enqueued_at =
    Trace.◌>>=◌ (lift (kube (cluster.get_coredb namespace cluster_name))) (λ (current : CoreDb).
      restart_if cluster namespace cluster_name (cluster.to_rfc3339 msg_enqueued_at)
        (differs (cluster.to_rfc3339 msg_enqueued_at) (restarted_at current)))

-- `hash` is the standard library's DefaultHasher.
unfoldable pub generate_cron_expression : (String → ℕ) → String → String
generate_cron_expression hash input =
    String.◌++◌ (show (hash input % 60))
      (String.◌++◌ " " (String.◌++◌ (show (hash input % 24)) " * * *"))
