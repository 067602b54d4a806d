-- ===== src/Operator/AppService/Ingress/Made.antt =====
-- The calls that the reconciliation of the routes does not make
-- (tembo-operator/src/app_service/ingress.rs).
use tembo.Prelude.{◌≡◌, Bool, false, Option, some, none, List, [], ◌∷◌, String}
use tembo.Prelude.Trace.{
  pure, call, tell, Lacks, Lacks-then, Lacks-seq, Lacks-lift, Lacks-for_each, Lacks-call, Lacks-if,
}
use tembo.Operator.Types.AppServices.{Middleware}
use tembo.Operator.AppService.Objects.{
  OwnerReference, IngressRouteRoutes, IngressRouteTcpRoutes, MiddleWareWrapper, TraefikMiddleware,
  IngressRoute, IngressRouteTcp,
}
use tembo.Operator.AppService.Routes.{generate_ingress_tcp}
use tembo.Operator.AppService.Calls.{
  Call, World, or_refused, read_middlewares, read_ingress_routes, read_ingress_routes_tcp,
  patch_middleware, patch_ingress_route, patch_ingress_route_tcp, delete_middleware,
  delete_ingress_route, delete_ingress_route_tcp,
}
use tembo.Operator.AppService.Ingress.{
  reconcile_middlewares, change_middlewares, get_middlewares, delete_first, apply_ingress_route,
  reconcile_ingress, is_routed_to, apply_ingress_route_tcp, reconcile_ingress_tcp,
}

module _ (p : Call → Bool) (deleted : (d : String) → p (delete_middleware d) ≡ false)
    (patched : (d : String) (mw : TraefikMiddleware) → p (patch_middleware d mw) ≡ false) where
  pub change_middlewares-Lacks :
      (desired : List MiddleWareWrapper) (actual : List String)
      → Lacks p (change_middlewares desired actual)
  unfolding change_middlewares
  change_middlewares-Lacks desired actual =
      Lacks-seq _ _ _
        (Lacks-for_each _ (λ d. tell (delete_middleware d)) _
          (λ d. Lacks-call {Val = Unit {0}} p (delete_middleware d) _ (deleted d)))
        (Lacks-for_each _ (λ (mw : MiddleWareWrapper). tell (patch_middleware mw.name mw.mw))
          desired
          (λ mw. Lacks-call {Val = Unit {0}} p (patch_middleware mw.name mw.mw) _ (patched _ _)))

  module _ (world : World) (listed : (n : String) → p (read_middlewares n) ≡ false) where
    reconcile_middlewares-Lacks :
        (name : String) (desired : List MiddleWareWrapper)
        → Lacks p (reconcile_middlewares world name desired)
    unfolding reconcile_middlewares
    reconcile_middlewares-Lacks name desired =
        Lacks-then p (get_middlewares world name) (change_middlewares desired)
          (Lacks-call p (read_middlewares name) _ (listed name))
          (λ actual _. change_middlewares-Lacks desired actual)

    delete_first-Lacks :
        (delete : String → Call) (found : List (Option String))
        → ((d : String) → p (delete d) ≡ false)
        → Lacks p (delete_first world delete found)
    delete_first-Lacks delete [] h = Lacks-lift p _
    delete_first-Lacks delete (none ∷ found) h = Lacks-lift p _
    delete_first-Lacks delete (some n ∷ found) h = Lacks-call p (delete n) _ (h n)

    module _ (listed_routes : p read_ingress_routes ≡ false)
        (listed_tcp : p read_ingress_routes_tcp ≡ false)
        (deleted_route : (d : String) → p (delete_ingress_route d) ≡ false)
        (deleted_tcp : (d : String) → p (delete_ingress_route_tcp d) ≡ false)
        (patched_route : (d : String) (r : IngressRoute) → p (patch_ingress_route d r) ≡ false)
        (patched_tcp : (d : String) (r : IngressRouteTcp)
          → p (patch_ingress_route_tcp d r) ≡ false) where
      apply_ingress_route-Lacks :
          (coredb_name ns : String) (oref : OwnerReference) (routes : List IngressRouteRoutes)
          (entry_points : List String)
          → Lacks p (apply_ingress_route world coredb_name ns oref routes entry_points)
      apply_ingress_route-Lacks coredb_name ns oref [] entry_points =
          Lacks-then p (call read_ingress_routes (or_refused world.list_ingress_routes)) _
            (Lacks-call p read_ingress_routes _ listed_routes)
            (λ names _. delete_first-Lacks delete_ingress_route names deleted_route)
      apply_ingress_route-Lacks coredb_name ns oref (r ∷ routes) entry_points =
          Lacks-call p _ _ (patched_route _ _)

      apply_ingress_route_tcp-Lacks :
          (name ns : String) (oref : OwnerReference) (routes : List IngressRouteTcpRoutes)
          (entry_points : List String)
          → Lacks p (apply_ingress_route_tcp world name ns oref routes entry_points)
      apply_ingress_route_tcp-Lacks name ns oref [] entry_points =
          Lacks-then p (call read_ingress_routes_tcp (or_refused world.list_ingress_routes_tcp)) _
            (Lacks-call p read_ingress_routes_tcp _ listed_tcp)
            (λ names _. delete_first-Lacks delete_ingress_route_tcp names deleted_tcp)
      apply_ingress_route_tcp-Lacks name ns oref (r ∷ routes) entry_points =
          let asked =
            patch_ingress_route_tcp name
              (generate_ingress_tcp name ns oref (r ∷ routes) entry_points) in
          Lacks-if p (is_routed_to name (r ∷ routes)) (call asked (or_refused (world.answer asked)))
            (pure tt) (λ _. Lacks-call p asked _ (patched_tcp _ _)) (λ _. Lacks-lift p _)

      pub reconcile_ingress-Lacks :
          (coredb_name ns : String) (oref : OwnerReference) (routes : List IngressRouteRoutes)
          (middlewares : List Middleware) (entry_points : List String)
          → Lacks p (reconcile_ingress world coredb_name ns oref routes middlewares entry_points)
      unfolding reconcile_ingress
      reconcile_ingress-Lacks coredb_name ns oref routes middlewares entry_points =
          Lacks-seq p _ _ (reconcile_middlewares-Lacks _ _)
            (apply_ingress_route-Lacks coredb_name ns oref routes entry_points)

      pub reconcile_ingress_tcp-Lacks :
          (coredb_name ns : String) (oref : OwnerReference) (routes : List IngressRouteTcpRoutes)
          (middlewares : List Middleware) (entry_points : List String) (app_name : String)
          → Lacks p (
              reconcile_ingress_tcp world coredb_name ns oref routes middlewares entry_points
                app_name)
      unfolding reconcile_ingress_tcp
      reconcile_ingress_tcp-Lacks coredb_name ns oref routes middlewares entry_points app_name =
          Lacks-seq p _ _ (reconcile_middlewares-Lacks _ _)
            (apply_ingress_route_tcp-Lacks _ ns oref routes entry_points)
