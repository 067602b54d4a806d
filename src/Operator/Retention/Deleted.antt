-- ===== src/Operator/Retention/Deleted.antt =====
-- Which backups and snapshots are deleted for their age
-- (tembo-operator/src/cloudnativepg/retention/snapshots.rs).
use tembo.Prelude.{
  ℕ, ◌≡◌, refl, ◌∙◌, String, Bool, true, ◌&&◌, Bool-cases, Option-cases, inl, inr, Option, some,
  none, List, [], ◌∷◌, ◌++◌, retain, any, arith,
}
use mathlib.Core.Path.{subst}
use tembo.Prelude.Result.{Result, ok, err}
use tembo.Prelude.Trace.{made-then, call, for_each, ◌>>◌}
use tembo.Operator.Types.{CoreDb}
use tembo.Operator.Api.{
  KubeError, BackupResource, Effect, delete, backup, snapshot, World, Run, is_before,
}
use tembo.Operator.Patches.{or_requeue}
use tembo.Operator.Retention.{
  cleanup_old_volume_snapshots, clean_up, delete_backup_and_snapshot, should_delete_backup,
  is_volume_snapshot, volume_snapshot_backups, cutoff, backup_name, snapshot_name, delete_snapshot,
}

-- What is past its retention: a backup by volume snapshot, made before the cutoff.
abbrev pub is_expired : ℕ → BackupResource → Bool
is_expired cutoff_time found =
    is_volume_snapshot found.method && is_before cutoff_time found.creation_timestamp

abbrev pub snapshot_calls : String → Option String → List Effect
snapshot_calls namespace none = []
snapshot_calls namespace (some name) = delete snapshot namespace name ∷ []

-- The calls for a backup: itself, and after it its snapshot.
abbrev pub calls_for : String → BackupResource → List Effect
calls_for namespace found =
    delete backup namespace (backup_name found) ∷ snapshot_calls namespace (snapshot_name found)

abbrev pub flat_map {a b} : {A : Type a} {B : Type b} → (A → List B) → List A → List B
flat_map f [] = []
flat_map f (x ∷ xs) = f x ++ flat_map f xs

module _ (world : World) (namespace : String) (cutoff_time : ℕ) where
  should_delete_backup-is_before :
      (found : BackupResource)
      → should_delete_backup found cutoff_time ≡ is_before cutoff_time found.creation_timestamp
  unfolding should_delete_backup
  should_delete_backup-is_before found = elim (Option-cases found.creation_timestamp) [
    | inl e ↦ rw e refl
    | inr (made, e) ↦ rw e refl
  ]

  -- The two filters are one.
  for_each-expired :
      (backups : List BackupResource)
      → ◌≡◌ {A = Run (Unit {0})}
          (for_each (clean_up world namespace cutoff_time) (volume_snapshot_backups backups))
          (for_each
            (delete_backup_and_snapshot world namespace)
            (retain (is_expired cutoff_time) backups))
  unfolding for_each retain clean_up volume_snapshot_backups
  for_each-expired [] = refl
  for_each-expired (found ∷ later) = elim (Bool-cases (is_volume_snapshot found.method)) [
    | inl e ↦ elim (Bool-cases (is_before cutoff_time found.creation_timestamp)) [
      | inl f ↦ rw (e, should_delete_backup-is_before found, f, for_each-expired later) refl
      | inr f ↦ rw (e, should_delete_backup-is_before found, f, for_each-expired later) refl
    ]
    | inr e ↦ rw (e, for_each-expired later) refl
  ]

  one_success :
      (found : BackupResource)
      → world.answer (delete backup namespace (backup_name found)) ≡ ok tt
      → ◌≡◌ {A = Run (Unit {0})}
          (delete_backup_and_snapshot world namespace found)
          (calls_for namespace found, ok tt)
  unfolding delete_backup_and_snapshot
  one_success found h = rw h (after (snapshot_name found))
    where
      after :
          (o : Option String)
          → ◌≡◌ {A = Run (Unit {0})}
              (
                delete backup namespace (backup_name found) ∷ (delete_snapshot namespace o).0,
                (delete_snapshot namespace o).1,
              )
              (delete backup namespace (backup_name found) ∷ snapshot_calls namespace o, ok tt)
      after none = refl
      after (some name) = refl

  all_succeed :
      ((found : BackupResource)
        → world.answer (delete backup namespace (backup_name found)) ≡ ok tt)
      → (backups : List BackupResource)
      → ◌≡◌ {A = Run (Unit {0})}
          (for_each (delete_backup_and_snapshot world namespace) backups)
          (flat_map (calls_for namespace) backups, ok tt)
  unfolding for_each
  all_succeed h [] = refl
  all_succeed h (found ∷ later) = rw (one_success found (h found), all_succeed h later) refl

  one_call :
      (p : Effect → Bool) (found : BackupResource)
      → any p (delete_backup_and_snapshot world namespace found).0 ≡ true
      → any p (calls_for namespace found) ≡ true
  unfolding delete_backup_and_snapshot
  one_call p found h =
      go (world.answer (delete backup namespace (backup_name found))) (snapshot_name found) h
    where
      go :
          (answer : Result KubeError (Unit {0})) (o : Option String)
          → any p (
              (call (delete backup namespace (backup_name found)) (or_requeue 300 answer)
                >> delete_snapshot namespace o).0)
            ≡ true
          → any p (delete backup namespace (backup_name found) ∷ snapshot_calls namespace o) ≡ true
      go (err e) o h = ground arith
      go (ok x) none h = h
      go (ok x) (some name) h = h

  some_call :
      (p : Effect → Bool) (backups : List BackupResource)
      → any p (for_each (delete_backup_and_snapshot world namespace) backups).0 ≡ true
      → any (λ found. any p (calls_for namespace found)) backups ≡ true
  unfolding for_each
  some_call p [] h = h
  some_call p (found ∷ later) h =
      elim (made-then p (delete_backup_and_snapshot world namespace found)
        (λ _. for_each (delete_backup_and_snapshot world namespace) later) h) [
          | inl here ↦ let first = one_call p found here in ground arith
          | inr (x, e, there) ↦ let rest = some_call p later there in ground arith
        ]

module _ (world : World) (cdb : CoreDb) (retention_days : ℕ) (namespace : String)
    (backups : List BackupResource) (is_in : cdb.namespace ≡ some namespace)
    (are_listed : world.list_backups namespace ≡ ok backups) where
  cleanup-for_each :
      cleanup_old_volume_snapshots world cdb retention_days
      ≡ for_each
          (delete_backup_and_snapshot world namespace)
          (retain (is_expired (cutoff world retention_days)) backups)
  unfolding cleanup_old_volume_snapshots
  cleanup-for_each =
      rw (is_in, are_listed)
        (for_each-expired world namespace (cutoff world retention_days) backups)

  -- Every call that the cleanup makes is the deletion of a volume snapshot backup older than the
  -- retention, or of the snapshot that this backup's status names.
  pub cleanup_old_volume_snapshots-expired :
      (p : Effect → Bool)
      → any p (cleanup_old_volume_snapshots world cdb retention_days).0 ≡ true
      → any
          (λ found. any p (calls_for namespace found))
          (retain (is_expired (cutoff world retention_days)) backups)
        ≡ true
  cleanup_old_volume_snapshots-expired p h =
      some_call world namespace (cutoff world retention_days) p _
        (subst (λ (m : Run (Unit {0})). any p m.0 ≡ true) cleanup-for_each h)

  -- When no deletion of a backup fails, all that are past their retention are deleted, in the order
  -- of the list, the snapshot of each after it, and the cleanup succeeds.
  pub cleanup_old_volume_snapshots-all :
      ((found : BackupResource)
        → world.answer (delete backup namespace (backup_name found)) ≡ ok tt)
      → cleanup_old_volume_snapshots world cdb retention_days ≡ (
        flat_map (calls_for namespace) (retain (is_expired (cutoff world retention_days)) backups),
        ok tt,
      )
  cleanup_old_volume_snapshots-all h =
      cleanup-for_each ∙ all_succeed world namespace (cutoff world retention_days) h _
