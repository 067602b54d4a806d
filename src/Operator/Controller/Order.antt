-- ===== src/Operator/Controller/Order.antt =====
-- Which parts of a reconciliation are reached (tembo-operator/src/controller.rs and
-- cloudnativepg/hibernate.rs).
use tembo.Prelude.{◌≡◌, ◌≢◌, refl, ◌∙◌, String, true, some, map}
use tembo.Prelude.Result.{ok, err}
use tembo.Prelude.Trace.{lift-some, ◌>>◌}
use tembo.Operator.Types.{CoreDb}
use tembo.Operator.Api.{Action, requeue, Run}
use tembo.Operator.Api.ClusterTypes.{Cluster}
use tembo.Operator.Hibernation.{get_cluster, reconcile_cluster_hibernation}
use tembo.Operator.Hibernation.Stopped.{reconcile_cluster_hibernation-stopped}
use tembo.Operator.Controller.Steps.{change, Controller, Reconciliation, within}
use tembo.Operator.Controller.Instance.{reconcile_instance, reconcile_awake}

-- A failing part ends the whole with its error and its calls.
within_fails :
    (m : Run (Unit {0})) (rest : Reconciliation Action)
    → ((x : Unit {0}) → m.1 ≢ ok x)
    → (action : Action) × (m.1 ≡ err action)
      × ◌≡◌ {A = Reconciliation Action} (within m >> rest) (map change m.0, err action)
within_fails (asked, ok x) rest h = absurd (h x refl)
within_fails (asked, err action) rest h = (action, refl, refl)

-- The reconciliation of a stopped instance whose cluster is found makes the calls of the
-- hibernation and no other, and ends as the hibernation does.
pub reconcile_instance-stopped :
    (world : Controller) (cdb : CoreDb) (namespace : String) (cluster : Cluster)
    → cdb.spec.stop ≡ true
    → cdb.namespace ≡ some namespace
    → get_cluster world.world cdb ≡ some cluster
    → (action : Action) × ((reconcile_cluster_hibernation world.world cdb).1 ≡ err action)
      × (reconcile_instance world cdb
          ≡ (map change (reconcile_cluster_hibernation world.world cdb).0, err action))
unfolding reconcile_instance
reconcile_instance-stopped world cdb namespace cluster h i j =
    let (action, e, q) =
      within_fails (reconcile_cluster_hibernation world.world cdb)
        (reconcile_awake world namespace cdb)
        (reconcile_cluster_hibernation-stopped world.world cdb cluster h j) in
    (action, e, lift-some (requeue 300) cdb.namespace namespace _ i ∙ q)
