-- ===== src/Operator/Controller.antt =====
-- The controller of the operator (tembo-operator/src/controller.rs).
pub mod Pods
pub mod Steps
pub mod Ingress
pub mod Backups
pub mod Instance
pub mod Requeue
pub mod Order
mod Tests
use tembo.Prelude.{
  ℕ, ◌+◌, ◌*◌, String, Bool, true, false, Option, none, some, List, [], ◌∷◌, ◌==◌, nat_eq,
  if◌then◌else◌, unwrap_or,
}
use tembo.Prelude.Result.{Result, ok, err}
use tembo.Prelude.Trace.{Trace, pure, fail, call, lift, tell, catch, ◌>>=◌, ◌>>◌}
use tembo.Operator.Types.{CoreDb}
use tembo.Operator.Api.{Action, requeue, await_change, KubeError, api, other, name_any}
use tembo.Operator.Patches.{annotation}
use tembo.Operator.Controller.Steps.{Call, publish, Controller}
use tembo.Operator.Controller.Instance.{reconcile_instance}

-- The errors that `reconcile` answers with. `finalizer_error` holds the one of the cleanup.
pub data Error : Type 0 where
  kube_error : KubeError → Error
  finalizer_error : Error → Error

-- A 429 is answered with a minute and up to two more, any other error with five.
unfoldable pub error_policy : (jitter : ℕ) → Error → Action
error_policy jitter (kube_error (api code)) =
    if nat_eq code 429 then requeue (60 + jitter) else requeue (5 * 60)
error_policy jitter _ = requeue (5 * 60)

-- What kube's `finalizer` decides to do with the resource.
pub data Finalizer : Type 0 where
  apply cleanup : Finalizer

abbrev pub either_action : Result Action Action → Action
either_action (ok action) = action
either_action (err action) = action

-- The errors of a reconciliation are actions too.
abbrev pub applied : Trace Call Action Action → Trace Call Error Action
applied (asked, res) = (asked, ok (either_action res))

abbrev pub is_terminating : Option String → Bool
is_terminating none = false
is_terminating (some phase) = phase == "Terminating"

abbrev pub published : Result KubeError (Unit {0}) → Result Error Action
published (ok _) = ok await_change
published (err e) = err (finalizer_error (kube_error e))

-- No event is published in a namespace that is being deleted.
unfoldable pub cleanup_instance : Controller → CoreDb → Trace Call Error Action
cleanup_instance world cdb =
    let asked = publish "DeleteCoreDB" (name_any cdb) in
    if is_terminating world.phase
    then pure await_change
    else call asked (published (world.publish asked))

abbrev pub is_ignored : Option String → Bool
is_ignored none = false
is_ignored (some value) = value == "false"

unfoldable pub finalize : Controller → Finalizer → CoreDb → Trace Call Error Action
finalize world apply cdb = applied (reconcile_instance world cdb)
finalize world cleanup cdb = cleanup_instance world cdb

unfoldable pub reconcile : Controller → Finalizer → CoreDb → Trace Call Error Action
unfolding finalize
reconcile world event cdb =
    if is_ignored (annotation "coredbs.coredb.io/watch" cdb.annotations)
    then pure await_change
    else finalize world event cdb
