-- ===== src/Operator/Cnpg/Schedule.antt =====
-- Scheduled backups and the pooler (tembo-operator/src/cloudnativepg/cnpg.rs). Of the pooler's
-- object there are the cluster and the instances.
use Prim.Native.String
use tembo.Prelude.{
  ℕ, zero, suc, String, Bool, true, false, ◌||◌, Option, none, some, List, [], ◌∷◌, ◌==◌, nat_eq,
  length, is_some, if◌then◌else◌, split_char, join,
}
use tembo.Prelude.Int.{parse_i32}
use tembo.Prelude.Result.{Result, ok, err}
use tembo.Prelude.Trace.{pure, fail, lift, ◌>>=◌, ◌>>◌}
use tembo.Operator.Types.{CoreDb}
use tembo.Operator.Types.Backups.{VolumeSnapshot}
use tembo.Operator.Api.{
  Action, requeue, BackupMethod, barman_object_store, volume_snapshot, scheduled_backup, pooler,
  delete, patch, scheduled, pooler_object, World, Run, name_any,
}
use tembo.Operator.Patches.{namespace_of, ask, pooler_name, get_pooler_instances}
use tembo.Operator.Hibernation.{get_cluster}
use tembo.Operator.Controller.Pods.{Pods, Pod, primary_pod_cnpg_ready_or_not, is_postgres_ready}

abbrev pub default_schedule : String
default_schedule = "0 0 0 * * *"

-- A term of a schedule that is accepted.
unfoldable pub is_term : String → Bool
unfolding parse_i32
is_term term = term == "*" || is_some (parse_i32 term)

unfoldable pub all_terms : List String → Bool
all_terms [] = true
all_terms (term ∷ terms) = let rest = all_terms terms in if is_term term then rest else false

-- Five terms are preceded by the seconds.
abbrev pub six_terms : List String → Option (List String)
six_terms terms =
    if nat_eq (length terms) 5
    then some ("0" ∷ terms)
    else if nat_eq (length terms) 6
    then some terms
    else none

abbrev pub schedule_of : Option (List String) → String
schedule_of none = default_schedule
schedule_of (some terms) = if all_terms terms then join " " terms else default_schedule

abbrev pub schedule_expression : Option String → String
schedule_expression none = default_schedule
schedule_expression (some expression) = schedule_of (six_terms (split_char 32 expression))

unfoldable pub schedule_expression_from_cdb : CoreDb → String
unfolding all_terms is_term split_char join
schedule_expression_from_cdb cdb = schedule_expression cdb.spec.backup.schedule

-- The first characters of a text.
unfoldable pub take_text : ℕ → String → String
take_text zero s = ""
take_text (suc n) String.[] = ""
take_text (suc n) (String.◌∷◌ c s) = String.◌∷◌ c (take_text n s)

-- A name of the cluster is ASCII, so that bytes are characters.
unfoldable pub generate_scheduled_backup_snapshot_name : String → String
unfolding take_text
generate_scheduled_backup_snapshot_name name = String.◌++◌ (take_text 43 name) "-snap"

pub record ScheduledBackupObject : Type 0 where
  pub name : String
  pub namespace : String
  pub cluster_name : String
  pub schedule : String
  pub method : BackupMethod

abbrev pub is_enabled : Option VolumeSnapshot → Bool
is_enabled none = false
is_enabled (some snapshot) = snapshot.enabled

abbrev pub snapshot_backup : CoreDb → String → String → Option ScheduledBackupObject
snapshot_backup cdb namespace name =
    if is_enabled cdb.spec.backup.volume_snapshot
    then some (record {
      name = generate_scheduled_backup_snapshot_name name;
      namespace = namespace;
      cluster_name = name;
      schedule = schedule_expression_from_cdb cdb;
      method = volume_snapshot;
    })
    else none

abbrev pub scheduled_pair :
    CoreDb → String → String → ScheduledBackupObject × Option ScheduledBackupObject
scheduled_pair cdb namespace name = (
  record {
    name = name;
    namespace = namespace;
    cluster_name = name;
    schedule = schedule_expression_from_cdb cdb;
    method = barman_object_store;
  },
  snapshot_backup cdb namespace name,
)

-- A missing namespace or name is an error, which the caller answers with a requeue.
unfoldable pub cnpg_scheduled_backup :
    CoreDb → Result Action (ScheduledBackupObject × Option ScheduledBackupObject)
unfolding generate_scheduled_backup_snapshot_name schedule_expression_from_cdb
cnpg_scheduled_backup cdb = elim cdb.namespace [
  | none ↦ err (requeue 300)
  | some namespace ↦ elim cdb.name [
    | none ↦ err (requeue 300)
    | some name ↦ ok (scheduled_pair cdb namespace name)
  ]
]

unfoldable pub apply_scheduled_backup : World → ScheduledBackupObject → Run (Unit {0})
apply_scheduled_backup world object = ask world 300 (
    patch scheduled_backup object.namespace object.name
      (scheduled object.cluster_name object.schedule object.method))

abbrev pub apply_if_some : World → Option ScheduledBackupObject → Run (Unit {0})
apply_if_some world none = pure tt
apply_if_some world (some object) = apply_scheduled_backup world object

unfoldable pub reconcile_cnpg_scheduled_backup : World → CoreDb → Run (Unit {0})
unfolding cnpg_scheduled_backup apply_scheduled_backup get_cluster
reconcile_cnpg_scheduled_backup world cdb =
    if is_some (get_cluster world cdb)
    then (do
      (s3_backup, volume_snapshot_backup) ← lift (cnpg_scheduled_backup cdb)
      apply_scheduled_backup world s3_backup
      apply_if_some world volume_snapshot_backup)
    else fail (requeue 30)

-- The two commands of psql that set up pgbouncer, the first of which is requeued on an error.
pub record Psql : Type 0 where
  pub setup_pgbouncer_function : Result Action (Unit {0})
  pub setup_pgbouncer : Result Action (Unit {0})

abbrev pub or_30 : Result Action (Unit {0}) → Result Action (Unit {0})
or_30 (ok x) = ok x
or_30 (err action) = err (requeue 30)

abbrev pub setup : Psql → Pod → Run (Unit {0})
setup psql primary_pod =
    if is_postgres_ready (some primary_pod)
    then (do lift (or_30 psql.setup_pgbouncer_function); lift psql.setup_pgbouncer)
    else pure tt

abbrev pub apply_pooler : World → Pods → Psql → CoreDb → String → Run (Unit {0})
apply_pooler world pods psql cdb namespace = do
  ask world 300 (
      patch pooler namespace (pooler_name cdb)
        (pooler_object (name_any cdb) (get_pooler_instances cdb)))
  primary_pod ← lift (primary_pod_cnpg_ready_or_not pods cdb)
  setup psql primary_pod

abbrev pub exists_pooler : World → CoreDb → String → Bool
exists_pooler world cdb namespace = elim (world.get_pooler namespace (pooler_name cdb)) [
  | err e ↦ false
  | ok found ↦ true
]

unfoldable pub reconcile_pooler : World → Pods → Psql → CoreDb → Run (Unit {0})
unfolding is_postgres_ready pooler_name get_pooler_instances
reconcile_pooler world pods psql cdb = do
  namespace ← namespace_of cdb
  if cdb.spec.connection_pooler.enabled
      then apply_pooler world pods psql cdb namespace
      else if exists_pooler world cdb namespace
      then ask world 300 (delete pooler namespace (pooler_name cdb))
      else pure tt
