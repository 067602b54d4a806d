-- ===== src/Operator/Patches.antt =====
-- The changes that the operator makes to the resources of an instance
-- (tembo-operator/src/cloudnativepg/cnpg_utils.rs, controller.rs and ingress.rs).
pub mod Stalled
pub mod Lacks
use Prim.Native.String
use mathlib.Core.Option
use tembo.Prelude.{
  ℕ, String, Bool, true, false, not, ◌&&◌, ◌-◌, ◌*◌, ◌^◌, Option, none, some, List, [], opt_eq,
  ◌==◌, ltb, is_none, unwrap_or, if◌then◌else◌,
}
use tembo.Prelude.Result.{Result, ok, err, ok_or}
use tembo.Prelude.Trace.{pure, fail, call, lift, tell, for_each, ◌>>=◌, ◌>>◌}
use tembo.Prelude.BTreeMap.{BTreeMap, get, insert}
use tembo.Operator.Types.{CoreDb}
use tembo.Operator.Api.{
  Action, requeue, KubeError, BackupResource, Kind, cluster, scheduled_backup, pooler, backup,
  coredb, Patch, running, image_name, restarted_at, Effect, delete, patch, World, Run, name_any,
}
use tembo.Operator.Api.ClusterTypes.{Cluster}

-- An answer of the API whose error is replaced by a requeue.
abbrev pub or_requeue {a} : {A : Type a} → ℕ → Result KubeError A → Result Action A
or_requeue seconds (ok x) = ok x
or_requeue seconds (err e) = err (requeue seconds)

abbrev pub namespace_of : CoreDb → Run String
namespace_of cdb = lift (ok_or (requeue 300) cdb.namespace)

-- The answer of the API is dropped.
unfoldable pub patch_cluster_merge : CoreDb → Patch → Run (Unit {0})
patch_cluster_merge cdb change = do
  namespace ← namespace_of cdb
  tell (patch cluster namespace (name_any cdb) change)

unfoldable pub patch_scheduled_backup_merge : CoreDb → String → Patch → Run (Unit {0})
patch_scheduled_backup_merge cdb backup_name change = do
  namespace ← namespace_of cdb
  tell (patch scheduled_backup namespace backup_name change)

unfoldable pub pooler_name : CoreDb → String
pooler_name cdb = String.◌++◌ (name_any cdb) "-pooler"

unfoldable pub patch_pooler_merge : CoreDb → Patch → Run (Unit {0})
patch_pooler_merge cdb change = do
  namespace ← namespace_of cdb
  tell (patch pooler namespace (pooler_name cdb) change)

-- A call that `?` follows, with the requeue that its error becomes.
abbrev pub ask : World → ℕ → Effect → Run (Unit {0})
ask world seconds asked = call asked (or_requeue seconds (world.answer asked))

unfoldable pub patch_cdb_status_merge : World → String → String → Patch → Run (Unit {0})
patch_cdb_status_merge world namespace name change =
    ask world 10 (patch coredb namespace name change)

unfoldable pub update_coredb_status : World → CoreDb → Bool → Run (Unit {0})
unfolding patch_cdb_status_merge
update_coredb_status world cdb is_running = do
  namespace ← namespace_of cdb
  patch_cdb_status_merge world namespace (name_any cdb) (running is_running)

unfoldable pub get_pooler_instances : CoreDb → Option ℕ
get_pooler_instances cdb = some (if cdb.spec.stop then 0 else 1)

abbrev pub restarted_at_key : String
restarted_at_key = "kubectl.kubernetes.io/restartedAt"

abbrev pub annotation : String → Option (BTreeMap String) → Option String
annotation key annotations = get key (unwrap_or [] annotations)

abbrev pub of_cluster {a} : {A : Type a} → (Cluster → Option A) → Option Cluster → Option A
of_cluster f none = none
of_cluster f (some found) = f found

abbrev pub previous_restarted_at : Option Cluster → Option String
previous_restarted_at = of_cluster (λ found. annotation restarted_at_key found.annotations)

abbrev pub mark_running : World → CoreDb → Bool → Run (Unit {0})
mark_running world cdb is_running =
    if is_running then pure tt else update_coredb_status world cdb true

abbrev pub restart : World → CoreDb → String → Bool → Run (Unit {0})
restart world cdb at is_updated =
    if is_updated
    then (do
      patch_cluster_merge cdb (restarted_at at)
      update_coredb_status world cdb false
      _ ← lift (world.is_not_restarting cdb)
      pure tt)
    else pure tt

abbrev pub mark_restarted : World → CoreDb → CoreDb → Run (Unit {0})
mark_restarted world cdb current = elim current.status [
  | none ↦ pure tt
  | some status ↦ mark_running world cdb status.running
]

-- The source unwraps the namespace, which a resource of the cluster has.
abbrev pub after_restart : World → CoreDb → Run (Unit {0})
after_restart world cdb = do
  namespace ← namespace_of cdb
  current ← lift (or_requeue 300 (world.get_coredb namespace (name_any cdb)))
  mark_restarted world cdb current

unfoldable pub restart_and_wait_for_restart : World → CoreDb → Option Cluster → Run (Unit {0})
restart_and_wait_for_restart world cdb none = pure tt
restart_and_wait_for_restart world cdb (some prev) =
    elim (annotation restarted_at_key cdb.annotations) [
      | none ↦ pure tt
      | some at ↦
          restart world cdb at (not (opt_eq (previous_restarted_at (some prev)) (some at)))
          >> after_restart world cdb
    ]

-- Whether the annotation changed, and the new cluster with it.
unfoldable pub update_restarted_at : CoreDb → Option Cluster → Cluster → Bool × Cluster
update_restarted_at cdb maybe_cluster new_spec =
    elim (annotation restarted_at_key cdb.annotations) [
      | none ↦ (false, new_spec)
      | some at ↦ (
        not (opt_eq (previous_restarted_at maybe_cluster) (some at)),
        record new_spec {
          annotations = Option.map (insert restarted_at_key at) new_spec.annotations;
        },
      )
    ]

unfoldable pub is_image_updated : CoreDb → Option Cluster → Run (Unit {0})
is_image_updated cdb prev_cluster =
    elim (of_cluster (λ found. found.spec.image_name) prev_cluster) [
      | none ↦ pure tt
      | some prev_image ↦
          if prev_image == cdb.spec.image
          then pure tt
          else patch_cluster_merge cdb (image_name cdb.spec.image)
    ]

abbrev pub hours : ℕ → ℕ
hours n = n * 3600 * 10 ^ 9

-- A backup that has no status, made more than six hours ago.
unfoldable pub is_stalled : ℕ → BackupResource → Bool
is_stalled now found = elim found.creation_timestamp [
  | none ↦ false
  | some created ↦ is_none found.status && ltb created (now - hours 6)
]

abbrev pub backup_name_any : BackupResource → String
backup_name_any found = unwrap_or "" found.name

-- A failure to delete is only logged.
abbrev pub remove_stalled : World → String → BackupResource → Run (Unit {0})
remove_stalled world namespace found =
    if is_stalled world.now found
    then tell (delete backup namespace (backup_name_any found))
    else pure tt

unfoldable pub removed_stalled_backups : World → CoreDb → Run (Unit {0})
unfolding for_each
removed_stalled_backups world cdb = do
  namespace ← namespace_of cdb
  backups ← lift (or_requeue 300 (world.list_cluster_backups namespace (name_any cdb)))
  for_each (remove_stalled world namespace) backups
