-- ===== src/Operator/Controller/Ingress.antt =====
-- The routes of an instance (`CoreDB::reconcile` of tembo-operator/src/controller.rs).
use Prim.Native.String
use tembo.Prelude.{String, not, ◌||◌, Option, none, some, ltb}
use tembo.Prelude.Trace.{pure, call, ◌>>=◌, ◌>>◌}
use tembo.Operator.Types.{CoreDb}
use tembo.Operator.Api.{name_any}
use tembo.Operator.Controller.Steps.{
  Route, ip_allowlist_middleware, postgres_ing_route_tcp, extra_postgres_ing_route_tcp,
  dedicated_networking, step, Controller, Reconciliation, or_300, perform_or_300,
}

abbrev pub suffixed : CoreDb → String → String
suffixed cdb suffix = String.◌++◌ (name_any cdb) suffix

abbrev pub read_only_route : CoreDb → String → String → Route
read_only_route cdb basedomain middleware_name = record {
  subdomain = suffixed cdb "-ro";
  basedomain = basedomain;
  prefix = suffixed cdb "-ro-";
  service_name = suffixed cdb "-ro";
  middleware_name = middleware_name;
  delete = ltb cdb.spec.replicas 2 || cdb.spec.stop;
}

abbrev pub read_write_route : CoreDb → String → String → Route
read_write_route cdb basedomain middleware_name = record {
  subdomain = name_any cdb;
  basedomain = basedomain;
  prefix = suffixed cdb "-rw-";
  service_name = suffixed cdb "-rw";
  middleware_name = middleware_name;
  delete = ltb cdb.spec.replicas 1 || cdb.spec.stop;
}

abbrev pub pooler_route : CoreDb → String → String → Route
pooler_route cdb basedomain middleware_name = record {
  subdomain = suffixed cdb "-pooler";
  basedomain = basedomain;
  prefix = suffixed cdb "-pooler-";
  service_name = suffixed cdb "-pooler";
  middleware_name = middleware_name;
  delete = ltb cdb.spec.replicas 1 || (cdb.spec.stop || not cdb.spec.connection_pooler.enabled);
}

unfoldable pub reconcile_ingress : Controller → CoreDb → Option String → Reconciliation (Unit {0})
reconcile_ingress world cdb none = pure tt
reconcile_ingress world cdb (some basedomain) = do
  middleware_name ← call (step ip_allowlist_middleware) (or_300 world.ip_allowlist_middleware)
  perform_or_300 world (postgres_ing_route_tcp (read_only_route cdb basedomain middleware_name))
  perform_or_300 world (postgres_ing_route_tcp (read_write_route cdb basedomain middleware_name))
  perform_or_300 world (extra_postgres_ing_route_tcp (suffixed cdb "-rw") middleware_name)
  perform_or_300 world (dedicated_networking basedomain)
  perform_or_300 world (postgres_ing_route_tcp (pooler_route cdb basedomain middleware_name))
