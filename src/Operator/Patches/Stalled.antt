-- ===== src/Operator/Patches/Stalled.antt =====
-- Which backups of a stopped instance are removed
-- (tembo-operator/src/cloudnativepg/cnpg_utils.rs).
use tembo.Prelude.{
  true, false, ap, ◌∙◌, ◌≡◌, refl, String, Bool, Bool-cases, Option-cases, is_none, ◌&&◌, ◌-◌, ◌*◌,
  ◌^◌, ℕ, inl, inr, some, List, [], ◌∷◌, map, retain, if◌then◌else◌,
}
use tembo.Prelude.Result.{ok}
use tembo.Prelude.Trace.{pure, tell, for_each, lift-some}
use tembo.Operator.Types.{CoreDb}
use tembo.Operator.Api.{
  BackupResource, Effect, delete, backup, is_before, requeue, World, Run, name_any,
}
use tembo.Operator.Patches.{removed_stalled_backups, is_stalled, backup_name_any}

-- A loop whose body at most logs a failure makes one call for each element that it is for.
for_each-tell :
    {Val : Type 0} (is_wanted : Val → Bool) (asked : Val → Effect) (xs : List Val)
    → ◌≡◌ {A = Run (Unit {0})}
        (for_each (λ x. if is_wanted x then tell (asked x) else pure tt) xs)
        (map asked (retain is_wanted xs), ok tt)
unfolding for_each retain
for_each-tell is_wanted asked [] = refl
for_each-tell is_wanted asked (x ∷ xs) = elim (Bool-cases (is_wanted x)) [
  | inl e ↦ rw (e, for_each-tell is_wanted asked xs) refl
  | inr e ↦ rw (e, for_each-tell is_wanted asked xs) refl
]

-- A backup that has no status, made more than six hours ago.
abbrev pub is_abandoned : ℕ → BackupResource → Bool
is_abandoned now found =
    is_none found.status && is_before (now - 6 * 3600 * 10 ^ 9) found.creation_timestamp

is_stalled-is_abandoned :
    (now : ℕ) (found : BackupResource) → is_stalled now found ≡ is_abandoned now found
unfolding is_stalled
is_stalled-is_abandoned now found = elim (Option-cases found.creation_timestamp) [
  | inl e ↦ rw e (and_false (is_none found.status))
  | inr (made, e) ↦ rw e refl
]
  where
    and_false : (b : Bool) → false ≡ (b && false)
    and_false true = refl
    and_false false = refl

retain-is_abandoned :
    (now : ℕ) (xs : List BackupResource) → retain (is_stalled now) xs ≡ retain (is_abandoned now) xs
unfolding retain
retain-is_abandoned now [] = refl
retain-is_abandoned now (x ∷ xs) =
    rw (is_stalled-is_abandoned now x, retain-is_abandoned now xs) refl

-- When the backups can be listed, one deletion is asked for each backup that has no status and is
-- older than six hours, in the order of the list, and for no other; whatever the answers are, the
-- removal succeeds.
pub removed_stalled_backups-retain :
    (world : World) (cdb : CoreDb) (namespace : String) (backups : List BackupResource)
    → cdb.namespace ≡ some namespace
    → world.list_cluster_backups namespace (name_any cdb) ≡ ok backups
    → removed_stalled_backups world cdb ≡ (
      map
          (λ found. delete backup namespace (backup_name_any found))
          (retain (is_abandoned world.now) backups),
      ok tt,
    )
unfolding removed_stalled_backups
removed_stalled_backups-retain world cdb namespace backups h k =
    let asked : BackupResource → Effect =
      λ found. delete backup namespace (backup_name_any found) in
    lift-some (requeue 300) cdb.namespace namespace _ h
    ∙ rw k (for_each-tell (is_stalled world.now) asked backups)
    ∙ ap (λ found. (map asked found, ok tt)) (retain-is_abandoned world.now backups)
