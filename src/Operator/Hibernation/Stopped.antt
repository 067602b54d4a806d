-- ===== src/Operator/Hibernation/Stopped.antt =====
-- An instance that is stopped, and one that runs (tembo-operator/src/cloudnativepg/hibernate.rs).
use tembo.Prelude.{◌≡◌, ◌≢◌, String, true, if-holds, Option, none, some, if◌then◌else◌}
use tembo.Prelude.Result.{ok, err}
use tembo.Prelude.Trace.{pure, fail, ◌>>=◌, ◌>>◌}
use tembo.Operator.Types.{CoreDb}
use tembo.Operator.Api.{Action, World, Run}
use tembo.Operator.Api.ClusterTypes.{Cluster}
use tembo.Operator.Patches.{
  patch_cluster_merge, patch_cdb_status_merge, removed_stalled_backups, namespace_of,
}
use tembo.Operator.Hibernation.{
  get_cluster, patch_appservice_deployments, remove_routes, update_scheduled_backups,
  update_pooler_instances, cleanup_hibernated_podmonitor, settled, toggled, hibernate,
  reconcile_cluster_hibernation,
}

-- A computation that never ends with a value.
abbrev pub Fails : Run (Unit {0}) → Type 0
Fails m = (x : Unit {0}) → m.1 ≢ ok x

fail-Fails : (action : Action) → Fails (fail action)
fail-Fails action x k = cc

pub Fails-then {a} :
    {A : Type a} (m : Run A) (f : A → Run (Unit {0})) → ((x : A) → Fails (f x)) → Fails (m >>= f)
Fails-then (asked, ok x) f h = h x
Fails-then (asked, err e) f h = λ x k. cc

pub Fails-seq : (m n : Run (Unit {0})) → Fails n → Fails (m >> n)
Fails-seq (asked, ok x) n h = h
Fails-seq (asked, err e) n h = λ x k. cc

module _ (world : World) (cdb : CoreDb) (is_stopped : cdb.spec.stop ≡ true) where
  if_stopped-Fails : (m n : Run (Unit {0})) → Fails m → Fails (if cdb.spec.stop then m else n)
  if_stopped-Fails m n h = if-holds Fails cdb.spec.stop m n (λ _. h) (λ runs. cc)

  settled-Fails : Fails (settled world cdb)
  unfolding settled
  settled-Fails =
      if_stopped-Fails _ _ (Fails-seq (removed_stalled_backups world cdb) _ (fail-Fails _))

  toggled-Fails : (namespace : String) → Fails (toggled world namespace cdb)
  unfolding toggled
  toggled-Fails namespace =
      Fails-seq (patch_cdb_status_merge world namespace _ _) _ (if_stopped-Fails _ _ (fail-Fails _))

  hibernate-Fails :
      (namespace : String) (cluster : Cluster) → Fails (hibernate world namespace cdb cluster)
  unfolding hibernate
  hibernate-Fails namespace cluster =
      Fails-seq (patch_appservice_deployments world namespace cdb) _ (
        Fails-seq (remove_routes world namespace cdb) _ (
          Fails-seq (update_scheduled_backups world _ cdb) _ (
            Fails-seq (update_pooler_instances world _ cdb) _ (
              Fails-seq (cleanup_hibernated_podmonitor world namespace cdb cluster) _ (
                Fails-seq (patch_cluster_merge cdb _) _
                  (if-holds Fails _ _ _ (λ _. settled-Fails) (λ _. toggled-Fails namespace)))))))

-- The reconciliation of a stopped instance whose cluster is found ends with a requeue, never with
-- a value: the controller goes no further.
pub reconcile_cluster_hibernation-stopped :
    (world : World) (cdb : CoreDb) (cluster : Cluster)
    → cdb.spec.stop ≡ true
    → get_cluster world cdb ≡ some cluster
    → (x : Unit {0}) → (reconcile_cluster_hibernation world cdb).1 ≢ ok x
unfolding reconcile_cluster_hibernation
reconcile_cluster_hibernation-stopped world cdb cluster h k =
    Fails-then (namespace_of cdb) _ (λ namespace.
      after namespace (get_cluster world cdb) k (hibernate-Fails world cdb h namespace cluster))
  where
    after :
        (namespace : String) (o : Option Cluster)
        → o ≡ some cluster
        → Fails (hibernate world namespace cdb cluster)
        → Fails (elim o [ none ↦ pure tt | some there ↦ hibernate world namespace cdb there ])
    after namespace none e f = cc
    after namespace (some there) e f = let same : there ≡ cluster = cc in rw same f
