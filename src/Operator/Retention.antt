-- ===== src/Operator/Retention.antt =====
-- The removal of old volume snapshots
-- (tembo-operator/src/cloudnativepg/retention/snapshots.rs).
pub mod Deleted
use tembo.Prelude.{
  ℕ, String, Bool, true, false, ◌-◌, ◌*◌, ◌^◌, Option, none, some, List, retain, ltb, unwrap_or,
  if◌then◌else◌,
}
use tembo.Prelude.Result.{Result, ok, err}
use tembo.Prelude.Trace.{pure, call, lift, tell, for_each, ◌>>=◌, ◌>>◌}
use tembo.Operator.Types.{CoreDb}
use tembo.Operator.Api.{
  Action, BackupMethod, barman_object_store, volume_snapshot, BackupStatus, BackupResource, Effect,
  delete, backup, snapshot, World, Run,
}
use tembo.Operator.Patches.{or_requeue, namespace_of, hours, ask}

abbrev pub days : ℕ → ℕ
days n = hours (24 * n)

abbrev pub is_volume_snapshot : Option BackupMethod → Bool
is_volume_snapshot (some volume_snapshot) = true
is_volume_snapshot _ = false

unfoldable pub should_delete_backup : BackupResource → ℕ → Bool
should_delete_backup found cutoff_time = elim found.creation_timestamp [
  | none ↦ false
  | some created ↦ ltb created cutoff_time
]

abbrev pub snapshot_name : BackupResource → Option String
snapshot_name found = elim found.status [ none ↦ none | some status ↦ status.backup_name ]

-- A failure to delete the snapshot is only logged.
abbrev pub delete_snapshot : String → Option String → Run (Unit {0})
delete_snapshot namespace none = pure tt
delete_snapshot namespace (some name) = tell (delete snapshot namespace name)

abbrev pub backup_name : BackupResource → String
backup_name found = unwrap_or "unknown" found.name

unfoldable pub delete_backup_and_snapshot : World → String → BackupResource → Run (Unit {0})
delete_backup_and_snapshot world namespace found = do
  ask world 300 (delete backup namespace (backup_name found))
  delete_snapshot namespace (snapshot_name found)

unfoldable pub clean_up : World → String → ℕ → BackupResource → Run (Unit {0})
unfolding delete_backup_and_snapshot should_delete_backup
clean_up world namespace cutoff_time found =
    if should_delete_backup found cutoff_time
    then delete_backup_and_snapshot world namespace found
    else pure tt

unfoldable pub volume_snapshot_backups : List BackupResource → List BackupResource
unfolding retain
volume_snapshot_backups = retain (λ found. is_volume_snapshot found.method)

unfoldable pub cutoff : World → ℕ → ℕ
cutoff world retention_days = world.now - days retention_days

unfoldable pub cleanup_old_volume_snapshots : World → CoreDb → ℕ → Run (Unit {0})
unfolding for_each clean_up
cleanup_old_volume_snapshots world cdb retention_days = do
  namespace ← namespace_of cdb
  all_backups ← lift (or_requeue 300 (world.list_backups namespace))
  for_each (clean_up world namespace (cutoff world retention_days))
      (volume_snapshot_backups all_backups)
