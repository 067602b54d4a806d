-- ===== src/Operator/Controller/Requeue.antt =====
-- When an instance is reconciled again (tembo-operator/src/controller.rs).
use tembo.Prelude.{
  ℕ, ◌+◌, ◌≤◌, ◌<◌, ◌≡◌, refl, String, Bool-cases, if-holds, inl, inr, nat_eq, arith,
}
use tembo.Prelude.Result.{Result, ok, err}
use tembo.Prelude.Trace.{Trace, pure, call, lift, Ends, Ends-then, Ends-seq, Ends-pure}
use tembo.Operator.Types.{CoreDb}
use tembo.Operator.Api.{
  Action, requeue, await_change, KubeError, api, other, World, name_any, requeue_normal_with_jitter,
}
use tembo.Operator.Patches.{annotation}
use tembo.Operator.Hibernation.{reconcile_cluster_hibernation}
use tembo.Operator.Controller.{
  Error, kube_error, finalizer_error, error_policy, Finalizer, apply, cleanup, reconcile, finalize,
  cleanup_instance, is_ignored, is_terminating, published,
}
use tembo.Operator.Controller.Steps.{Call, publish, Controller, within}
use tembo.Operator.Controller.Instance.{
  reconcile_instance, reconcile_awake, reconcile_access, reconcile_metrics, reconcile_cluster,
  reconcile_database, reconcile_retention,
}

-- After an error the instance is reconciled again in one to five minutes, for a jitter of at most
-- two minutes.
pub error_policy-bounds :
    (jitter : ℕ) (error : Error)
    → jitter ≤ 120
    → (seconds : ℕ) × (error_policy jitter error ≡ requeue seconds) × 60 ≤ seconds × seconds ≤ 300
unfolding error_policy
error_policy-bounds jitter (kube_error (api code)) h = elim (Bool-cases (nat_eq code 429)) [
  | inl e ↦ (60 + jitter, rw e refl, omega arith, omega arith)
  | inr e ↦ (300, rw e refl, omega arith, omega arith)
]
error_policy-bounds jitter (kube_error (other message)) h = (300, refl, omega arith, omega arith)
error_policy-bounds jitter (finalizer_error error) h = (300, refl, omega arith, omega arith)

-- A requeue after the period of the configuration and a jitter of less than a minute.
abbrev pub IsInPeriod : World → Action → Type 0
IsInPeriod world action =
    (seconds : ℕ) × (action ≡ requeue seconds)
    × world.config.reconcile_ttl ≤ seconds
    × seconds < world.config.reconcile_ttl + 60

-- A number that is drawn lies in its range.
abbrev pub IsInRange : World → Type 0
IsInRange world =
    (low high : ℕ) → low < high → low ≤ world.gen_range low high × world.gen_range low high < high

module _ (world : Controller) (cdb : CoreDb) (in_range : IsInRange world.world) where
  requeue_normal_with_jitter-IsInPeriod :
      IsInPeriod world.world (requeue_normal_with_jitter world.world)
  unfolding requeue_normal_with_jitter
  requeue_normal_with_jitter-IsInPeriod =
      let drawn = in_range 0 60 (omega arith) in
      (
        world.world.config.reconcile_ttl + world.world.gen_range 0 60,
        refl,
        omega arith,
        omega arith,
      )

  reconcile_awake-Ends :
      (namespace : String) → Ends (IsInPeriod world.world) (reconcile_awake world namespace cdb)
  unfolding reconcile_awake
  reconcile_awake-Ends namespace = Ends-seq _ (reconcile_access world namespace cdb) _ (
      Ends-seq _ (reconcile_metrics world namespace cdb) _ (
        Ends-seq _ (reconcile_cluster world cdb) _ (
          Ends-seq _ (reconcile_database world namespace cdb) _ (
            Ends-seq _ (within (reconcile_retention world.world cdb)) _
              (Ends-pure _ _ requeue_normal_with_jitter-IsInPeriod)))))

  -- A reconciliation that succeeds is repeated after the period of the configuration and less than
  -- a minute more, where a number that is drawn from a range lies in it.
  pub reconcile_instance-bounds :
      (action : Action)
      → (reconcile_instance world cdb).1 ≡ ok action
      → (seconds : ℕ) × (action ≡ requeue seconds)
        × world.world.config.reconcile_ttl ≤ seconds
        × seconds < world.world.config.reconcile_ttl + 60
  unfolding reconcile_instance
  reconcile_instance-bounds =
      (Ends-then (IsInPeriod world.world) (lift _) _ (λ namespace.
        Ends-seq _ (within (reconcile_cluster_hibernation world.world cdb)) _
          (reconcile_awake-Ends namespace))).ended

-- An error, if there is one, is the finalizer's.
abbrev pub FailsInFinalizer : Trace Call Error Action → Type 0
FailsInFinalizer m =
    (error : Error) → m.1 ≡ err error → (inner : Error) × (error ≡ finalizer_error inner)

published-FailsInFinalizer :
    (asked : Call) (answer : Result KubeError (Unit {0}))
    → FailsInFinalizer (call asked (published answer))
published-FailsInFinalizer asked (ok x) error h = cc
published-FailsInFinalizer asked (err e) error h = (kube_error e, cc)

pure-FailsInFinalizer : (action : Action) → FailsInFinalizer (pure action)
pure-FailsInFinalizer action error h = cc

reconcile-FailsInFinalizer :
    (world : Controller) (event : Finalizer) (cdb : CoreDb)
    → FailsInFinalizer (reconcile world event cdb)
unfolding reconcile finalize cleanup_instance
reconcile-FailsInFinalizer world event cdb =
    if-holds FailsInFinalizer (is_ignored (annotation "coredbs.coredb.io/watch" cdb.annotations))
      (pure await_change) (finalize world event cdb) (λ _. pure-FailsInFinalizer await_change)
      (λ _. after event)
  where
    after : (event : Finalizer) → FailsInFinalizer (finalize world event cdb)
    after apply = λ error h. cc
    after cleanup =
        let asked = publish "DeleteCoreDB" (name_any cdb) in
        if-holds FailsInFinalizer (is_terminating world.phase) (pure await_change)
          (call asked (published (world.publish asked))) (λ _. pure-FailsInFinalizer await_change)
          (λ _. published-FailsInFinalizer asked (world.publish asked))

-- Whatever the cluster answers, an error of a reconciliation is repeated after five minutes: the
-- other period, for answers with the code 429, is not reached.
pub reconcile-error_policy :
    (world : Controller) (event : Finalizer) (cdb : CoreDb) (error : Error) (jitter : ℕ)
    → (reconcile world event cdb).1 ≡ err error
    → error_policy jitter error ≡ requeue 300
unfolding error_policy
reconcile-error_policy world event cdb error jitter h =
    let (inner, e) = reconcile-FailsInFinalizer world event cdb error h in rw e refl
