-- ===== src/Operator/Hibernation/Calls.antt =====
-- What the reconciliation of hibernation deletes, and when it disables the reconciliation of the
-- cluster (tembo-operator/src/cloudnativepg/hibernate.rs).
use tembo.Prelude.{
  ◌≡◌, refl, String, Bool, true, false, ◌&&◌, Option, none, some, List, any, arith, nat_eq, ◌==◌,
}
use tembo.Prelude.Result.{ok}
use tembo.Prelude.Trace.{
  Lacks, Lacks-then, Lacks-seq, Lacks-for_each, Lacks-lift, Lacks-call, Lacks-if, pure, fail, lift,
  ◌>>◌,
}
use tembo.Operator.Types.{CoreDb}
use tembo.Operator.Api.{
  Action, Effect, delete, patch, hibernation, World, is_delete, Kind, backup, name_any,
}
use tembo.Operator.Api.ClusterTypes.{Cluster}
use tembo.Operator.Patches.{
  patch_cdb_status_merge, removed_stalled_backups, remove_stalled, namespace_of, is_stalled,
  or_requeue,
}
use tembo.Operator.Hibernation.{
  get_cluster, remove_routes, routes_of, delete_route, delete_routes, cleanup_hibernated_podmonitor,
  hibernation_patch, settled, toggled, hibernate, reconcile_cluster_hibernation,
  is_cluster_hibernated, replicas_of, reconciliation_value, delete_pod_monitor,
}
use tembo.Operator.Hibernation.Lacks.{Avoids, hibernate-Lacks}

Lacks-reconcile :
    (p : Effect → Bool) (world : World) (cdb : CoreDb)
    → ((found : Cluster) → get_cluster world cdb ≡ some found → Avoids p world cdb found)
    → Lacks p (reconcile_cluster_hibernation world cdb)
unfolding reconcile_cluster_hibernation
Lacks-reconcile p world cdb h =
    Lacks-then p (namespace_of cdb) _ (Lacks-lift p _)
      (λ namespace _. after namespace (get_cluster world cdb) h)
  where
    after :
        (namespace : String) (o : Option Cluster)
        → ((found : Cluster) → o ≡ some found → Avoids p world cdb found)
        → Lacks p (elim o [
          | none ↦ pure {Call = Effect} {Err = Action} (tt {0})
          | some found ↦ hibernate world namespace cdb found
        ])
    after namespace none k = Lacks-lift p (ok tt)
    after namespace (some found) k = hibernate-Lacks p world cdb found (k found refl) namespace

module _ (world : World) (cdb : CoreDb) (runs : cdb.spec.stop ≡ false) where
  one_replica : nat_eq (replicas_of cdb) 0 ≡ false
  one_replica = rw runs refl

  running-Avoids : (found : Cluster) → Avoids is_delete world cdb found
  unfolding remove_routes cleanup_hibernated_podmonitor hibernation_patch settled toggled
      patch_cdb_status_merge
  running-Avoids found =
      let done = Lacks-lift {Val = Unit {0}} is_delete (ok tt) in
      record {
        scales = λ namespace name.
            Lacks-seq is_delete _ _
              (Lacks-if is_delete (nat_eq (replicas_of cdb) 0)
                (delete_pod_monitor world namespace name) (pure tt) (λ e. cc) (λ _. done))
              (Lacks-call is_delete _ _ refl);
        routes = λ namespace.
            Lacks-if is_delete cdb.spec.stop (delete_routes world namespace (routes_of cdb))
              (pure tt) (λ e. cc) (λ _. done);
        suspends = λ namespace name b. refl;
        pools = λ namespace name n. refl;
        monitor = λ namespace.
            Lacks-if is_delete (cdb.spec.stop && is_cluster_hibernated found)
              (delete_pod_monitor world namespace (name_any cdb)) (pure tt) (λ e. ground arith)
              (λ _. done);
        toggles = λ namespace. refl;
        settles =
            Lacks-if is_delete cdb.spec.stop (removed_stalled_backups world cdb >> fail _) (pure tt)
              (λ e. cc) (λ _. done);
        reports = λ namespace. Lacks-seq is_delete _ _ (Lacks-call is_delete _ _ refl) (
            Lacks-if is_delete cdb.spec.stop (fail _) (pure tt) (λ e. Lacks-lift is_delete _)
              (λ _. done));
      }

  -- No call deletes anything while the instance is to run.
  pub reconcile_cluster_hibernation-running :
      any is_delete (reconcile_cluster_hibernation world cdb).0 ≡ false
  reconcile_cluster_hibernation-running =
      (Lacks-reconcile is_delete world cdb (λ found _. running-Avoids found)).made

-- The call that stops the reconciliation of the cluster.
abbrev pub is_disabling : Effect → Bool
is_disabling (patch _ _ _ (hibernation _ reconciliation_loop _)) = reconciliation_loop == "disabled"
is_disabling _ = false

enabled_unless_both :
    (b c : Bool) → c ≡ false → (reconciliation_value (b && c) == "disabled") ≡ false
enabled_unless_both true true h = cc
enabled_unless_both true false h = refl
enabled_unless_both false c h = refl

module _ (world : World) (cdb : CoreDb) where
  delete_routes-Lacks :
      (namespace : String) (routes : List (Kind × String))
      → Lacks is_disabling (delete_routes world namespace routes)
  unfolding delete_routes delete_route
  delete_routes-Lacks namespace routes = Lacks-for_each is_disabling _ routes (λ (kind, name).
      Lacks-if is_disabling (world.exists kind namespace name) _ (pure tt)
        (λ _. Lacks-call is_disabling (delete kind namespace name) _ refl)
        (λ _. Lacks-lift is_disabling (ok tt)))

  removed_stalled_backups-Lacks : Lacks is_disabling (removed_stalled_backups world cdb)
  unfolding removed_stalled_backups
  removed_stalled_backups-Lacks =
      Lacks-then is_disabling (namespace_of cdb) _ (Lacks-lift is_disabling _) (λ namespace _.
        Lacks-then is_disabling
          (lift (or_requeue 300 (world.list_cluster_backups namespace (name_any cdb)))) _
          (Lacks-lift is_disabling _)
          (λ backups _.
            Lacks-for_each is_disabling (remove_stalled world namespace) backups (λ found.
              Lacks-if is_disabling (is_stalled world.now found) _ (pure tt)
                (λ _. Lacks-call is_disabling (delete backup namespace _) (ok tt) refl)
                (λ _. Lacks-lift is_disabling (ok tt)))))

  awake-Avoids :
      (found : Cluster) → is_cluster_hibernated found ≡ false → Avoids is_disabling world cdb found
  unfolding remove_routes cleanup_hibernated_podmonitor hibernation_patch settled toggled
      patch_cdb_status_merge delete_pod_monitor
  awake-Avoids found h =
      let done = Lacks-lift {Val = Unit {0}} is_disabling (ok tt) in
      record {
        scales = λ namespace name.
            Lacks-seq is_disabling _ _
              (Lacks-if is_disabling (nat_eq (replicas_of cdb) 0)
                (delete_pod_monitor world namespace name) (pure tt)
                (λ _. Lacks-call is_disabling _ _ refl) (λ _. done))
              (Lacks-call is_disabling _ _ refl);
        routes = λ namespace.
            Lacks-if is_disabling cdb.spec.stop (delete_routes world namespace (routes_of cdb))
              (pure tt) (λ _. delete_routes-Lacks namespace _) (λ _. done);
        suspends = λ namespace name b. refl;
        pools = λ namespace name n. refl;
        monitor = λ namespace.
            Lacks-if is_disabling (cdb.spec.stop && is_cluster_hibernated found)
              (delete_pod_monitor world namespace (name_any cdb)) (pure tt)
              (λ _. Lacks-call is_disabling _ _ refl) (λ _. done);
        toggles = λ namespace. enabled_unless_both cdb.spec.stop (is_cluster_hibernated found) h;
        settles =
            Lacks-if is_disabling cdb.spec.stop (removed_stalled_backups world cdb >> fail _)
              (pure tt)
              (λ _.
                Lacks-seq is_disabling _ _ removed_stalled_backups-Lacks
                  (Lacks-lift is_disabling _))
              (λ _. done);
        reports = λ namespace. Lacks-seq is_disabling _ _ (Lacks-call is_disabling _ _ refl) (
            Lacks-if is_disabling cdb.spec.stop (fail _) (pure tt) (λ _. Lacks-lift is_disabling _)
              (λ _. done));
      }

  -- The reconciliation of a cluster is not disabled before its hibernation is complete.
  pub reconcile_cluster_hibernation-awake :
      ((found : Cluster) → get_cluster world cdb ≡ some found → is_cluster_hibernated found ≡ false)
      → any is_disabling (reconcile_cluster_hibernation world cdb).0 ≡ false
  reconcile_cluster_hibernation-awake h =
      (Lacks-reconcile is_disabling world cdb (λ found e. awake-Avoids found (h found e))).made
