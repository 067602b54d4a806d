-- ===== src/Operator/Controller/Backups.antt =====
-- Volume snapshots and the time of the first recovery (tembo-operator/src/controller.rs).

pub mod Oldest
use tembo.Prelude.{
  ℕ, String, Bool, true, false, not, Option, none, some, List, [], ◌∷◌, ltb, ◌==◌, if◌then◌else◌,
}
use tembo.Prelude.Result.{ok_or}
use tembo.Prelude.Trace.{pure, lift, ◌>>=◌}
use tembo.Operator.Types.{CoreDb}
use tembo.Operator.Types.Backups.{VolumeSnapshot}
use tembo.Operator.Api.{
  requeue, Config, BackupResource, BackupStatus, patch, coredb, Patch, volume_snapshot, World, Run,
  name_any,
}
use tembo.Operator.Patches.{namespace_of, ask, or_requeue}
use tembo.Operator.Controller.Steps.{Controller, Reconciliation}

-- Whether the volume snapshots of the instance are not what the configuration says.
unfoldable pub is_volume_snapshot_update_needed : Option VolumeSnapshot → Bool → Bool
is_volume_snapshot_update_needed current enable_volume_snapshot =
    differ (is_enabled current) enable_volume_snapshot
  where
    is_enabled : Option VolumeSnapshot → Bool
    is_enabled none = false
    is_enabled (some snapshot) = snapshot.enabled

    differ : Bool → Bool → Bool
    differ true b = not b
    differ false b = b

-- VOLUME_SNAPSHOT_CLASS_NAME
abbrev pub volume_snapshot_class_name : String
volume_snapshot_class_name = "cnpg-snapshot-class"

unfoldable pub create_volume_snapshot_patch : Config → VolumeSnapshot
create_volume_snapshot_patch cfg = record {
  enabled = cfg.enable_volume_snapshot;
  snapshot_class = if cfg.enable_volume_snapshot then some volume_snapshot_class_name else none;
}

abbrev pub snapshot_patch : VolumeSnapshot → Patch
snapshot_patch wanted = volume_snapshot wanted.enabled wanted.snapshot_class

unfoldable pub enable_volume_snapshot : World → CoreDb → Run (Unit {0})
unfolding is_volume_snapshot_update_needed create_volume_snapshot_patch
enable_volume_snapshot world cdb = namespace_of cdb >>= λ namespace.
    if is_volume_snapshot_update_needed cdb.spec.backup.volume_snapshot
      world.config.enable_volume_snapshot
    then ask world 10 (
        patch coredb namespace (name_any cdb)
          (snapshot_patch (create_volume_snapshot_patch world.config)))
    else pure tt

abbrev pub is_completed : BackupStatus → Bool
is_completed reported = elim reported.phase [ none ↦ false | some phase ↦ phase == "completed" ]

abbrev pub min : Option ℕ → Option ℕ → Option ℕ
min none later = later
min (some time) none = some time
min (some time) (some least) = if ltb least time then some least else some time

-- When a completed backup ended.
unfoldable pub completed_at : (String → Option ℕ) → BackupResource → Option ℕ
completed_at parse found = elim found.status [
  | none ↦ none
  | some reported ↦ if is_completed reported then parsed reported.stopped_at else none
]
  where
    parsed : Option String → Option ℕ
    parsed none = none
    parsed (some text) = parse text

unfoldable pub process_backups : (String → Option ℕ) → List BackupResource → Option ℕ
unfolding completed_at
process_backups parse [] = none
process_backups parse (found ∷ later) = min (completed_at parse found) (process_backups parse later)

unfoldable pub get_recovery_time : Controller → CoreDb → Reconciliation (Option ℕ)
get_recovery_time world cdb = do
  namespace ← lift (ok_or (requeue 300) cdb.namespace)
  backups ← lift (or_requeue 300 (world.world.list_cluster_backups namespace (name_any cdb)))
  pure (process_backups world.parse_from_rfc3339 backups)
