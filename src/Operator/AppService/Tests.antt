-- ===== src/Operator/AppService/Tests.antt =====
-- The applications of an instance at concrete values (tembo-operator/src/app_service).

use tembo.Prelude.{
  ◌≡◌, refl, String, true, false, none, some, [], ◌∷◌, ◌==◌, if◌then◌else◌, find, any, map, members,
  list_contains, str_lt,
}
use tembo.Prelude.BTreeMap
use tembo.Prelude.BTreeMap.{BTreeMap}
use tembo.Operator.Types.AppServices.{EnvVar}
use tembo.Operator.AppService.EnvVars.{EnvVarManager, new, set, set_all, put_all, write_at}
use tembo.Operator.AppService.EnvVars.Refined.{set_all-new}
use tembo.Operator.AppService.Environment.{
  env_vars, forwarded_env_vars, plain, sets, connections, conn, platform, annotated, user_var,
  user_vars,
}
use tembo.Operator.AppService.Calls.{each, is_refused, to_delete, undesired}
use tembo.Operator.AppService.Ingress.{
  change_middlewares, expected, is_routed_to, reconcile_ingress, reconcile_ingress_tcp,
  reconcile_middlewares,
}
use tembo.Operator.AppService.Workload.{generate_deployment, generate_podmonitor}
use tembo.Prelude.Text.{concat, strip_prefix}
use tembo.Prelude.Text.Replace.{replace, replace_from, uppercase}
use tembo.Prelude.Trace.{for_each}
use tembo.Operator.AppService.Environment.Found.{last_named, remaining, env_vars-find}
use tembo.Operator.AppService.Routes.{
  http_routes, tcp_routes, generate_ingress_routes, generate_ingress_tcp_routes,
  generate_middlewares,
}
use tembo.Operator.AppService.Routes.Parted.{
  both_lengths, is_untyped, routed, http_routes-tcp_routes,
}
use tembo.Operator.AppService.Resources.{
  generate_appsvc_annotations, mapped, collected, with_routes, generate_resource, entry_points_of,
}
use tembo.Operator.AppService.Resources.Annotations.{generate_appsvc_annotations-get}
use tembo.Operator.AppService.Secret.{new_secret_data, decoded, prepare_apps_connection_secret}
use tembo.Operator.AppService.Secret.Kept.{new_secret_data-get}
use tembo.Operator.AppService.Reconcile.{
  reconcile_app_services, desired_deployments, desired_services, generate_resources, apply_ingress,
  apply_podmonitor, apply_resource, apply_resources, apply_service, flattened, present, reap,
  reap_all,
}
use tembo.Operator.AppService.Reconcile.Settled.{has_failed}
use tembo.Operator.AppService.Reconcile.Reported.{reconcile_app_services-ok}
use tembo.Operator.AppService.Reconcile.Kept.{removes, reconcile_app_services-removes}
use tembo.Operator.AppService.Samples.{
  rest_service, instance_annotations, instance_db, owner, forwarded_vars, plain_setting, calm_world,
}

-- The names of the variables, in their order.
env_names_test :
    mapped
      (λ (m : EnvVarManager). map (λ (v : EnvVar). v.name) m.vars)
      (env_vars forwarded_vars rest_service "my-db" "ns" instance_annotations)
    ≡ some (
        "MY_DB_RW_CONNECTION" ∷ "MY_DB_RO_CONNECTION" ∷ "TEMBO_INSTANCE_ID" ∷ "NAMESPACE"
        ∷ "TEMBO_URL" ∷ "LEVEL" ∷ "URI" ∷ [])
unfolding env_vars set_all sets connections set write_at BTreeMap.get BTreeMap.insert conn replace
    replace_from uppercase strip_prefix str_lt platform annotated user_var user_vars
env_names_test = refl

set_all-new_example :
    (m : EnvVarManager) × (set_all
        (("A", plain "A" "1") ∷ ("B", plain "B" "2") ∷ ("A", plain "A" "3") ∷ [])
        new
      ≡ some m)
    × (m.vars
        ≡ map
            (λ e. e.1)
            (put_all (("A", plain "A" "1") ∷ ("B", plain "B" "2") ∷ ("A", plain "A" "3") ∷ []) []))
set_all-new_example =
    set_all-new (("A", plain "A" "1") ∷ ("B", plain "B" "2") ∷ ("A", plain "A" "3") ∷ [])

env_vars-find_example :
    (m : EnvVarManager) × (env_vars forwarded_vars rest_service "my-db" "ns" instance_annotations
      ≡ some m)
    × ((name : String)
        → find (λ v. v.name == name) m.vars
          ≡ last_named name
              (remaining forwarded_vars rest_service "my-db" "ns" instance_annotations))
env_vars-find_example = env_vars-find forwarded_vars rest_service "my-db" "ns" instance_annotations

http_routes-tcp_routes_example :
    both_lengths
      (http_routes "my-db-rest" "ns" "Host(`h`)" "my-db" (members rest_service.routing))
      (tcp_routes "my-db-rest" "ns" "HostSNI(`h`)" "my-db" (members rest_service.routing))
    ≡ (if any is_untyped (members rest_service.routing)
        then none
        else some (routed (members rest_service.routing)))
http_routes-tcp_routes_example =
    http_routes-tcp_routes "my-db-rest" "ns" "Host(`h`)" "HostSNI(`h`)" "my-db"
      (members rest_service.routing)

generate_appsvc_annotations-get_example :
    BTreeMap.get "tembo.io/organization_id" (generate_appsvc_annotations instance_db) ≡ some "org_1"
unfolding BTreeMap.get str_lt
generate_appsvc_annotations-get_example =
    generate_appsvc_annotations-get instance_db "tembo.io/organization_id" ((refl, tt), (tt, tt))

new_secret_data-get_example :
    BTreeMap.get "password"
      (new_secret_data (("password", "secret") ∷ ("ro_uri", "postgresql://ro") ∷ []))
    ≡ none
unfolding str_lt
new_secret_data-get_example =
    new_secret_data-get "password" (("password", "secret") ∷ ("ro_uri", "postgresql://ro") ∷ [])
      ((refl, tt), (tt, tt))

reconcile_app_services-removes_example :
    any (removes "my-db-old") (reconcile_app_services calm_world plain_setting instance_db none).0
    ≡ true
unfolding prepare_apps_connection_secret list_contains desired_deployments decoded concat present
reconcile_app_services-removes_example =
    reconcile_app_services-removes calm_world plain_setting instance_db none "my-db-old" "ns" owner
      refl refl refl

reconcile_app_services-ok_example :
    any (has_failed calm_world) (reconcile_app_services calm_world plain_setting instance_db none).0
    ≡ false
unfolding reconcile_app_services prepare_apps_connection_secret decoded concat generate_resources
    generate_resource generate_deployment env_vars set_all sets connections set write_at
    BTreeMap.get BTreeMap.insert conn replace replace_from uppercase strip_prefix str_lt platform
    annotated user_var user_vars each to_delete undesired is_routed_to reconcile_ingress
    reconcile_ingress_tcp reconcile_middlewares apply_ingress apply_podmonitor apply_resource
    apply_resources apply_service desired_deployments desired_services flattened reap reap_all
    collected entry_points_of generate_appsvc_annotations with_routes generate_ingress_routes
    generate_ingress_tcp_routes generate_middlewares http_routes tcp_routes list_contains for_each
    generate_podmonitor present expected is_refused change_middlewares forwarded_env_vars
reconcile_app_services-ok_example =
    reconcile_app_services-ok calm_world plain_setting instance_db none refl
