-- ===== src/Operator/Patches/Lacks.antt =====
-- The calls that a restart and a new image do not make
-- (tembo-operator/src/cloudnativepg/cnpg_utils.rs).
use tembo.Prelude.{
  ◌≡◌, String, Bool, true, false, not, Option, none, some, opt_eq, ◌==◌, if◌then◌else◌,
}
use tembo.Prelude.Result.{ok}
use tembo.Prelude.Trace.{
  Lacks, Lacks-then, Lacks-seq, Lacks-if, Lacks-lift, Lacks-call, pure, lift, ◌>>◌,
}
use tembo.Operator.Types.{CoreDb, CoreDbStatus}
use tembo.Operator.Api.{
  Action, Effect, Patch, patch, cluster, coredb, running, restarted_at, image_name, World, name_any,
}
use tembo.Operator.Api.ClusterTypes.{Cluster}
use tembo.Operator.Patches.{
  namespace_of, or_requeue, annotation, restarted_at_key, previous_restarted_at, of_cluster,
  patch_cluster_merge, update_coredb_status, patch_cdb_status_merge, restart, mark_running,
  mark_restarted, after_restart, restart_and_wait_for_restart, is_image_updated,
}

module _ (p : Effect → Bool) (cdb : CoreDb) where
  patch_cluster_merge-Lacks :
      (change : Patch)
      → ((namespace : String) → p (patch cluster namespace (name_any cdb) change) ≡ false)
      → Lacks p (patch_cluster_merge cdb change)
  unfolding patch_cluster_merge
  patch_cluster_merge-Lacks change h =
      Lacks-then p (namespace_of cdb) _ (Lacks-lift p _) (λ namespace _.
        Lacks-call p (patch cluster namespace (name_any cdb) change) (ok tt) (h namespace))

  pub is_image_updated-Lacks :
      ((namespace image : String)
        → p (patch cluster namespace (name_any cdb) (image_name image)) ≡ false)
      → (prev_cluster : Option Cluster) → Lacks p (is_image_updated cdb prev_cluster)
  unfolding is_image_updated
  is_image_updated-Lacks h prev_cluster =
      go (of_cluster (λ found. found.spec.image_name) prev_cluster)
    where
      go :
          (o : Option String)
          → Lacks p (elim o [
            | none ↦ pure {Call = Effect} {Err = Action} (tt {0})
            | some prev_image ↦
                if prev_image == cdb.spec.image
                then pure tt
                else patch_cluster_merge cdb (image_name cdb.spec.image)
          ])
      go none = Lacks-lift p (ok tt)
      go (some prev_image) =
          Lacks-if p (prev_image == cdb.spec.image) (pure tt)
            (patch_cluster_merge cdb (image_name cdb.spec.image)) (λ _. Lacks-lift p (ok tt))
            (λ _.
              patch_cluster_merge-Lacks (image_name cdb.spec.image)
                (λ namespace. h namespace cdb.spec.image))

module _ (p : Effect → Bool) (world : World) (cdb : CoreDb)
    (no_restart : (namespace at : String)
      → p (patch cluster namespace (name_any cdb) (restarted_at at)) ≡ false)
    (no_status : (namespace : String) (b : Bool)
      → p (patch coredb namespace (name_any cdb) (running b)) ≡ false) where
  update_coredb_status-Lacks : (b : Bool) → Lacks p (update_coredb_status world cdb b)
  unfolding update_coredb_status patch_cdb_status_merge
  update_coredb_status-Lacks b = Lacks-then p (namespace_of cdb) _ (Lacks-lift p _) (λ namespace _.
      Lacks-call p (patch coredb namespace (name_any cdb) (running b)) _ (no_status namespace b))

  restart-Lacks : (at : String) (is_updated : Bool) → Lacks p (restart world cdb at is_updated)
  restart-Lacks at is_updated =
      Lacks-if p is_updated _ (pure tt)
        (λ _.
          Lacks-seq p _ _
            (patch_cluster_merge-Lacks p cdb (restarted_at at)
              (λ namespace. no_restart namespace at))
            (Lacks-seq p _ _ (update_coredb_status-Lacks false) (
              Lacks-then p (lift (world.is_not_restarting cdb)) _ (Lacks-lift p _)
                (λ _ _. Lacks-lift p (ok tt)))))
        (λ _. Lacks-lift p (ok tt))

  mark_restarted-Lacks : (current : CoreDb) → Lacks p (mark_restarted world cdb current)
  mark_restarted-Lacks current = go current.status
    where
      go :
          (o : Option CoreDbStatus)
          → Lacks p (elim o [
            | none ↦ pure {Call = Effect} {Err = Action} (tt {0})
            | some status ↦ mark_running world cdb status.running
          ])
      go none = Lacks-lift p (ok tt)
      go (some status) =
          Lacks-if p status.running (pure tt) (update_coredb_status world cdb true)
            (λ _. Lacks-lift p (ok tt)) (λ _. update_coredb_status-Lacks true)

  after_restart-Lacks : Lacks p (after_restart world cdb)
  after_restart-Lacks = Lacks-then p (namespace_of cdb) _ (Lacks-lift p _) (λ namespace _.
      Lacks-then p (lift (or_requeue 300 (world.get_coredb namespace (name_any cdb)))) _
        (Lacks-lift p _) (λ current _. mark_restarted-Lacks current))

  pub restart_and_wait_for_restart-Lacks :
      (prev_cluster : Option Cluster)
      → Lacks p (restart_and_wait_for_restart world cdb prev_cluster)
  unfolding restart_and_wait_for_restart
  restart_and_wait_for_restart-Lacks none = Lacks-lift p (ok tt)
  restart_and_wait_for_restart-Lacks (some prev) = go (annotation restarted_at_key cdb.annotations)
    where
      go :
          (o : Option String)
          → Lacks p (elim o [
            | none ↦ pure {Call = Effect} {Err = Action} (tt {0})
            | some at ↦
                restart world cdb at (not (opt_eq (previous_restarted_at (some prev)) (some at)))
                >> after_restart world cdb
          ])
      go none = Lacks-lift p (ok tt)
      go (some at) = Lacks-seq p _ _ (restart-Lacks at _) after_restart-Lacks
