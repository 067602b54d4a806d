-- ===== src/Operator/Controller/Steps.antt =====
-- The steps of the reconciliation of an instance (`CoreDB::reconcile` of
-- tembo-operator/src/controller.rs). What the other modules of the operator do is a step, with the
-- arguments that it is given.

use tembo.Prelude.{ℕ, String, Bool, Option, List, map}
use tembo.Prelude.Result.{Result, ok, err}
use tembo.Prelude.Trace.{Trace, call}
use tembo.Operator.Params.Value.{PgConfig}
use tembo.Operator.Types.{ExtensionStatus, TrunkInstallStatus}
use tembo.Operator.Api.{Action, requeue, KubeError, Effect, World, Run}

-- A route of Postgres's protocol, with its arguments.
pub record Route : Type 0 where
  pub subdomain : String
  pub basedomain : String
  pub prefix : String
  pub service_name : String
  pub middleware_name : String
  pub delete : Bool

pub data Step : Type 0 where
  network_policies trunk_configmap certificates metrics_configmap : (namespace : String) → Step
  ip_allowlist_middleware secret app_services generic_metrics_configmap : Step
  postgres_ing_route_tcp : Route → Step
  extra_postgres_ing_route_tcp : (service_name middleware_name : String) → Step
  dedicated_networking : (basedomain : String) → Step
  postgres_role_secret : (role_name secret_name : String) → Step
  cnpg cnpg_scheduled_backup postgres_exporter_cleanup pooler is_not_restarting : Step
  extensions last_archive_status config_params heartbeat : Step

-- The calls of a reconciliation: its own changes, the steps, and events published.
pub data Call : Type 0 where
  change : Effect → Call
  step : Step → Call
  publish : (reason note : String) → Call

-- What is answered. An error that the source replaces by `map_err` is a text.
pub record Controller : Type 0 where
  pub world : World
  pub step : Step → Result Action (Unit {0})
  pub step_or_error : Step → Result String (Unit {0})
  -- The variable DATA_PLANE_BASEDOMAIN of the environment.
  pub basedomain : Option String
  pub ip_allowlist_middleware : Result String String
  pub extensions : Result Action (List TrunkInstallStatus × List ExtensionStatus)
  pub last_archive_status : Result Action (Option ℕ)
  pub config_params : Result Action (List PgConfig)
  pub phase : Option String
  pub publish : Call → Result KubeError (Unit {0})
  -- `DateTime::parse_from_rfc3339` of chrono, in UTC.
  pub parse_from_rfc3339 : String → Option ℕ

abbrev pub Reconciliation {a} : Type a → Type a
Reconciliation A = Trace Call Action A

-- The operations of the other modules, their calls among those of the reconciliation.
abbrev pub within {a} : {A : Type a} → Run A → Reconciliation A
within (asked, res) = (map change asked, res)

abbrev pub or_300 {a} : {A : Type a} → Result String A → Result Action A
or_300 (ok x) = ok x
or_300 (err e) = err (requeue 300)

abbrev pub perform : Controller → Step → Reconciliation (Unit {0})
perform world name = call (step name) (world.step name)

-- A step whose error is replaced by a requeue.
abbrev pub perform_or_300 : Controller → Step → Reconciliation (Unit {0})
perform_or_300 world name = call (step name) (or_300 (world.step_or_error name))
