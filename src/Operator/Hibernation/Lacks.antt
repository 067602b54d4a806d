-- ===== src/Operator/Hibernation/Lacks.antt =====
-- The calls that a reconciliation of hibernation does not make
-- (tembo-operator/src/cloudnativepg/hibernate.rs).
use tembo.Prelude.{
  ℕ, ◌≡◌, String, Bool, false, Option, none, some, List, nat_eq, if◌then◌else◌, unwrap_or,
}
use tembo.Prelude.Result.{ok, err}
use tembo.Prelude.Trace.{
  Lacks, Lacks-then, Lacks-seq, Lacks-for_each, Lacks-lift, Lacks-call, Lacks-if, pure, lift, tell,
  ◌>>=◌,
}
use tembo.Operator.Types.{CoreDb}
use tembo.Operator.Api.{
  Action, Effect, patch, World, Run, Pooler, ScheduledBackup, DeploymentSpec, Deployment, cluster,
  scheduled_backup, pooler, suspend, instances, name_any,
}
use tembo.Operator.Api.ClusterTypes.{Cluster}
use tembo.Operator.Patches.{
  patch_cluster_merge, patch_scheduled_backup_merge, patch_pooler_merge, namespace_of,
  get_pooler_instances, pooler_name,
}
use tembo.Operator.Hibernation.{
  patch_appservice_deployments, remove_routes, update_scheduled_backups, update_scheduled_backup,
  update_pooler_instances, to_instances, cleanup_hibernated_podmonitor, hibernation_patch, settled,
  toggled, hibernate, patch_deployment, replicas_of, scale, scale_unless, or_normal, same_flag,
  or_requeue_normal,
}

-- The calls that a predicate has to leave out, each wherever it is made.
pub record Avoids (p : Effect → Bool) (world : World) (cdb : CoreDb) (found : Cluster)
    : Type 0 where
  pub scales : (namespace name : String) → Lacks p (scale world namespace (replicas_of cdb) name)
  pub routes : (namespace : String) → Lacks p (remove_routes world namespace cdb)
  pub suspends :
      (namespace name : String) (b : Bool)
      → p (patch scheduled_backup namespace name (suspend b)) ≡ false
  pub pools :
      (namespace name : String) (n : ℕ) → p (patch pooler namespace name (instances n)) ≡ false
  pub monitor :
      (namespace : String) → Lacks p (cleanup_hibernated_podmonitor world namespace cdb found)
  pub toggles :
      (namespace : String)
      → p (patch cluster namespace (name_any cdb) (hibernation_patch cdb found)) ≡ false
  pub settles : Lacks p (settled world cdb)
  pub reports : (namespace : String) → Lacks p (toggled world namespace cdb)

module _ (p : Effect → Bool) (world : World) (cdb : CoreDb) (found : Cluster)
    (h : Avoids p world cdb found) where
  Lacks-done : Lacks p (pure {Call = Effect} {Err = Action} (tt {0}))
  Lacks-done = Lacks-lift p (ok tt)

  patch_deployment-Lacks :
      (namespace : String) (name : Option String) (spec : Option DeploymentSpec)
      → Lacks p (scale_unless world namespace (replicas_of cdb) name spec)
  patch_deployment-Lacks namespace none spec = Lacks-done
  patch_deployment-Lacks namespace (some name) none = Lacks-done
  patch_deployment-Lacks namespace (some name) (some spec) =
      Lacks-if p _ _ _ (λ _. Lacks-done) (λ _. h.scales namespace name)

  patch_appservice_deployments-Lacks :
      (namespace : String) → Lacks p (patch_appservice_deployments world namespace cdb)
  unfolding patch_appservice_deployments patch_deployment
  patch_appservice_deployments-Lacks namespace =
      Lacks-then p
        (lift (or_requeue_normal world (world.list_deployments namespace (name_any cdb)))) _
        (Lacks-lift p _)
        (λ (ds : List Deployment) _.
          Lacks-for_each p _ ds
            (λ (d : Deployment). patch_deployment-Lacks namespace d.name d.spec))

  or_normal-Lacks : (m : Run (Unit {0})) → Lacks p m → Lacks p (or_normal world m)
  or_normal-Lacks (asked, ok x) k = record { made = k.made }
  or_normal-Lacks (asked, err e) k = record { made = k.made }

  -- A patch in the namespace of the instance.
  Lacks-tell :
      (ask : String → Effect)
      → ((namespace : String) → p (ask namespace) ≡ false)
      → Lacks p (namespace_of cdb >>= λ namespace. tell (ask namespace))
  Lacks-tell ask k =
      Lacks-then p (namespace_of cdb) _ (Lacks-lift p _)
        (λ namespace _. Lacks-call p (ask namespace) (ok tt) (k namespace))

  update_scheduled_backup-Lacks :
      (scheduled : ScheduledBackup) → Lacks p (update_scheduled_backup world cdb scheduled)
  unfolding update_scheduled_backup patch_scheduled_backup_merge
  update_scheduled_backup-Lacks scheduled =
      Lacks-if p (same_flag (unwrap_or false scheduled.suspend) cdb.spec.stop) _
        (or_normal world (
          patch_scheduled_backup_merge cdb (unwrap_or (name_any cdb) scheduled.name)
            (suspend cdb.spec.stop)))
        (λ _. Lacks-done)
        (λ _. or_normal-Lacks _ (Lacks-tell _ (λ namespace. h.suspends namespace _ cdb.spec.stop)))

  to_instances-Lacks : (current desired : ℕ) → Lacks p (to_instances world cdb current desired)
  unfolding patch_pooler_merge
  to_instances-Lacks current desired =
      Lacks-if p (nat_eq current desired) _
        (or_normal world (patch_pooler_merge cdb (instances desired))) (λ _. Lacks-done)
        (λ _.
          or_normal-Lacks _
            (Lacks-tell _ (λ namespace. h.pools namespace (pooler_name cdb) desired)))

  update_pooler_instances-Lacks :
      (o : Option Pooler) → Lacks p (update_pooler_instances world o cdb)
  unfolding update_pooler_instances get_pooler_instances
  update_pooler_instances-Lacks none = Lacks-done
  update_pooler_instances-Lacks (some there) =
      to_instances-Lacks (unwrap_or 1 there.instances) (if cdb.spec.stop then 0 else 1)

  patch_cluster_merge-Lacks : Lacks p (patch_cluster_merge cdb (hibernation_patch cdb found))
  unfolding patch_cluster_merge
  patch_cluster_merge-Lacks = Lacks-tell _ h.toggles

  pub hibernate-Lacks : (namespace : String) → Lacks p (hibernate world namespace cdb found)
  unfolding hibernate update_scheduled_backups
  hibernate-Lacks namespace = Lacks-seq p _ _ (patch_appservice_deployments-Lacks namespace) (
      Lacks-seq p _ _ (h.routes namespace) (
        Lacks-seq p _ _ (Lacks-for_each p _ _ update_scheduled_backup-Lacks) (
          Lacks-seq p _ _ (update_pooler_instances-Lacks _) (
            Lacks-seq p _ _ (h.monitor namespace) (
              Lacks-seq p _ _ patch_cluster_merge-Lacks
                (Lacks-if p _ _ _ (λ _. h.settles) (λ _. h.reports namespace)))))))
