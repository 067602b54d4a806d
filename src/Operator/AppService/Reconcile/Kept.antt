-- ===== src/Operator/AppService/Reconcile/Kept.antt =====
-- Which deployments the reconciliation of the applications removes
-- (tembo-operator/src/app_service/manager.rs).
use tembo.Prelude.{
  ◌≡◌, ◌∙◌, ap, sym, refl, Bool, true, false, not, ◌&&◌, ◌||◌, Option, none, some, List, [], ◌∷◌,
  arith, eq_iff, inl, inr, Bool-cases, String, ◌==◌, any, any-append, members, list_contains,
}
use tembo.Prelude.Result.{ok, err, ok_or}
use tembo.Prelude.Trace.{
  Trace, lift, ◌>>◌, Lacks, Lacks-then, Lacks-lift, Lacks-call, call, lift-some,
}
use tembo.Operator.Types.{CoreDb}
use tembo.Operator.Types.AppServices.{AppService}
use tembo.Operator.Api.{name_any}
use tembo.Operator.AppService.Objects.{OwnerReference, PlacementConfig, PodMonitor, Service}
use tembo.Operator.AppService.Workload.{Setting}
use tembo.Operator.AppService.Resources.{AppServiceResources}
use tembo.Operator.AppService.Calls.{
  Call, World, Attempts, ◌also◌, refused, nameless, attempt, each, noted, read_secret, to_delete,
  undesired, delete_deployment, delete_service, patch_deployment,
}
use tembo.Operator.AppService.Ingress.{Run}
use tembo.Operator.AppService.Ingress.Made.{reconcile_ingress-Lacks, reconcile_ingress_tcp-Lacks}
use tembo.Operator.AppService.Secret.{
  SecretError, kube, missing_secret, unwrapped, fetch_all_decoded_data_from_secret,
  prepare_apps_connection_secret,
}
use tembo.Operator.AppService.Reconcile.{
  apply_podmonitor, apply_service, apply_resource, apply_resources, reap, reap_all, apply_ingress,
  applied, flattened, Outcome, panicked, reconcile_app_services, desired_deployments,
  desired_services, listed, reported, or_300,
}

abbrev pub removes : String → Call → Bool
removes name (delete_deployment d) = d == name
removes name _ = false

-- No deployment of the name is removed.
record Spares (name : String) (m : Attempts) : Type 0 where
  made : any (removes name) m.0 ≡ false

module _ (world : World) (name : String) where
  also-Spares : (m n : Attempts) → Spares name m → Spares name n → Spares name (m also n)
  also-Spares (asked, none) n h k = record { made = h.made }
  also-Spares (asked, some b) n h k = record {
    made = any-append (removes name) asked n.0 ∙ ground (arith, h.made, k.made);
  }

  any-also :
      (m n : Attempts) → Spares name n → any (removes name) (m also n).0 ≡ any (removes name) m.0
  any-also (asked, none) n h = refl
  any-also (asked, some b) n h = any-append (removes name) asked n.0 ∙ ground (arith, h.made)

  each-Spares :
      {A : Type 0} (body : A → Attempts) (xs : List A)
      → ((x : A) → Spares name (body x))
      → Spares name (each body xs)
  unfolding each
  each-Spares body [] h = record { made = refl }
  each-Spares body (x ∷ xs) h = also-Spares (body x) (each body xs) (h x) (each-Spares body xs h)

  noted-Spares : (m : Run) → Lacks (removes name) m → Spares name (noted m)
  noted-Spares (asked, ok tt) h = record { made = h.made }
  noted-Spares (asked, err (refused problem)) h = record { made = h.made }
  noted-Spares (asked, err nameless) h = record { made = h.made }

  members_of_to_delete :
      (desired actual : List String) → members (to_delete desired actual) ≡ undesired desired actual
  unfolding to_delete
  members_of_to_delete desired actual = ground arith

  each_delete :
      (desired actual : List String)
      → any
          (removes name)
          (each (λ d. attempt world (delete_deployment d)) (undesired desired actual)).0
        ≡ (list_contains actual name && not (list_contains desired name))
  unfolding undesired each list_contains
  each_delete desired [] = refl
  each_delete desired (a ∷ actual) =
      let same : (a == name) ≡ true → list_contains desired name ≡ list_contains desired a =
        λ e. ap (list_contains desired) (sym ((eq_iff a name).0 e)) in
      elim (Bool-cases (list_contains desired a)) [
        | inl e ↦ rw e (each_delete desired actual ∙ ground (arith, same, e))
        | inr e ↦
            rw e (ap (λ b. a == name || b) (each_delete desired actual) ∙ ground (arith, same, e))
      ]

  apply_service-Spares :
      (n : String) (service : Option Service) (pmon : Option PodMonitor)
      → Spares name (apply_service world n service pmon)
  unfolding apply_service apply_podmonitor
  apply_service-Spares n none pmon = record { made = refl }
  apply_service-Spares n (some service) none = record { made = refl }
  apply_service-Spares n (some service) (some pmon) = record { made = refl }

  apply_resources-Spares :
      (resources : List AppServiceResources) → Spares name (apply_resources world resources)
  unfolding apply_resources apply_resource
  apply_resources-Spares resources = each-Spares _ resources (λ res.
      also-Spares (attempt world (patch_deployment res.name res.deployment)) _
        (record { made = refl }) (apply_service-Spares res.name res.service res.podmonitor))

  apply_ingress-Spares :
      (basedomain : Option String) (coredb_name ns : String) (oref : OwnerReference)
      (appsvcs : List AppService) (resources : List AppServiceResources)
      → Spares name (apply_ingress world basedomain coredb_name ns oref appsvcs resources)
  unfolding apply_ingress
  apply_ingress-Spares none coredb_name ns oref appsvcs resources = record { made = refl }
  apply_ingress-Spares (some domain) coredb_name ns oref appsvcs resources =
      let http =
        reconcile_ingress-Lacks (removes name) (λ d. refl) (λ d mw. refl) world (λ d. refl) refl
          refl (λ d. refl) (λ d. refl) (λ d r. refl) (λ d r. refl) coredb_name ns oref
          (flattened (λ (r : AppServiceResources). r.ingress_routes) resources)
          (flattened (λ (a : AppService). a.middlewares) appsvcs)
          (flattened (λ (r : AppServiceResources). r.entry_points) resources) in
      let tcp = λ (a : AppService).
        reconcile_ingress_tcp-Lacks (removes name) (λ d. refl) (λ d mw. refl) world (λ d. refl) refl
          refl (λ d. refl) (λ d. refl) (λ d r. refl) (λ d r. refl) coredb_name ns oref
          (flattened (λ (r : AppServiceResources). r.ingress_tcp_routes) resources) []
          (flattened (λ (r : AppServiceResources). r.entry_points_tcp) resources) a.name in
      also-Spares _ _ (noted-Spares _ http) (each-Spares _ appsvcs (λ a. noted-Spares _ (tcp a)))

  -- The names of the deployments that are there and not desired.
  reap_deployments :
      (desired actual : List String)
      → any (removes name) (reap world delete_deployment desired actual).0
        ≡ (list_contains actual name && not (list_contains desired name))
  unfolding reap
  reap_deployments desired actual =
      rw (members_of_to_delete desired actual) (each_delete desired actual)

  reap-Spares :
      (desired actual : List String) → Spares name (reap world delete_service desired actual)
  unfolding reap
  reap-Spares desired actual =
      each-Spares (λ d. attempt world (delete_service d)) (members (to_delete desired actual))
        (λ d. record { made = refl })

  removed_by_reap_all : String → List AppService → Bool
  removed_by_reap_all coredb_name appsvcs =
      list_contains (listed (world.list_deployments coredb_name)) name
      && not (list_contains (desired_deployments coredb_name appsvcs) name)

  any-reap_all :
      (coredb_name : String) (appsvcs : List AppService)
      → any (removes name) (reap_all world coredb_name appsvcs).0
        ≡ removed_by_reap_all coredb_name appsvcs
  unfolding reap_all removed_by_reap_all
  any-reap_all coredb_name appsvcs =
      any-also
        (reap world delete_deployment (desired_deployments coredb_name appsvcs)
          (listed (world.list_deployments coredb_name)))
        (reap world delete_service (desired_services coredb_name appsvcs)
          (listed (world.list_services coredb_name)))
        (reap-Spares (desired_services coredb_name appsvcs)
          (listed (world.list_services coredb_name)))
      ∙ reap_deployments (desired_deployments coredb_name appsvcs)
          (listed (world.list_deployments coredb_name))

  any-reported : (m : Attempts) → any (removes name) (reported m).0 ≡ any (removes name) m.0
  any-reported (asked, none) = refl
  any-reported (asked, some b) = refl

  any-applied :
      (setting : Setting) (coredb_name ns : String) (oref : OwnerReference)
      (appsvcs : List AppService) (made : Option (List AppServiceResources))
      → any (removes name) (applied world setting coredb_name ns oref appsvcs made).0
        ≡ removed_by_reap_all coredb_name appsvcs
  any-applied setting coredb_name ns oref appsvcs none = any-reap_all coredb_name appsvcs
  any-applied setting coredb_name ns oref appsvcs (some resources) =
      any-reported (
        reap_all world coredb_name appsvcs
        also (apply_resources world resources
            also apply_ingress world setting.basedomain coredb_name ns oref appsvcs resources))
      ∙ any-also (reap_all world coredb_name appsvcs) _ (
          also-Spares _ _ (apply_resources-Spares resources)
            (apply_ingress-Spares setting.basedomain coredb_name ns oref appsvcs resources))
      ∙ any-reap_all coredb_name appsvcs

  or_300-made : (m : Trace Call SecretError (Unit {0})) → (or_300 m).0 ≡ m.0
  or_300-made (asked, ok x) = refl
  or_300-made (asked, err unwrapped) = refl
  or_300-made (asked, err (kube problem)) = refl
  or_300-made (asked, err (missing_secret key)) = refl

  or_300-ok : (m : Trace Call SecretError (Unit {0})) → m.1 ≡ ok tt → (or_300 m).1 ≡ ok tt
  or_300-ok (asked, ok x) h = refl
  or_300-ok (asked, err problem) h = cc

  prepare-Lacks : (cdb : CoreDb) → Lacks (removes name) (prepare_apps_connection_secret world cdb)
  unfolding prepare_apps_connection_secret
  prepare-Lacks cdb =
      Lacks-then _ (lift (ok_or unwrapped cdb.namespace)) _ (Lacks-lift _ _) (λ ns _.
        Lacks-then _ (lift (ok_or unwrapped cdb.name)) _ (Lacks-lift _ _) (λ n _.
          Lacks-then _ (call (read_secret _) (fetch_all_decoded_data_from_secret world _)) _
            (Lacks-call _ (read_secret _) _ refl) (λ original _. record { made = refl })))

  made-after :
      (m n : Trace Call Outcome (Unit {0}))
      → m.1 ≡ ok tt
      → any (removes name) m.0 ≡ false
      → any (removes name) (m >> n).0 ≡ any (removes name) n.0
  made-after (asked, ok x) n h k = any-append (removes name) asked n.0 ∙ ground (arith, k)
  made-after (asked, err problem) n h k = cc

-- Once the secret of the applications is prepared, the reconciliation removes the deployment of a
-- name exactly if the listing of the instance's deployments has it and no application of the spec
-- is deployed under it.
pub reconcile_app_services-removes :
    (world : World) (setting : Setting) (cdb : CoreDb) (placement : Option PlacementConfig)
    (name ns : String) (oref : OwnerReference)
    → cdb.namespace ≡ some ns
    → world.controller_owner_ref cdb ≡ some oref
    → (prepare_apps_connection_secret world cdb).1 ≡ ok tt
    → any (removes name) (reconcile_app_services world setting cdb placement).0 ≡ (
        list_contains (listed (world.list_deployments (name_any cdb))) name
        && not (
            list_contains
              (desired_deployments (name_any cdb) (members cdb.spec.app_services))
              name))
unfolding reconcile_app_services removed_by_reap_all
reconcile_app_services-removes world setting cdb placement name ns oref h k l =
    ap (λ m. any (removes name) m.0)
      (lift-some panicked cdb.namespace ns _ h
        ∙ lift-some panicked (world.controller_owner_ref cdb) oref _ k)
    ∙ made-after world name (or_300 (prepare_apps_connection_secret world cdb)) _
        (or_300-ok world name _ l)
        (ap (any (removes name)) (or_300-made world name (prepare_apps_connection_secret world cdb))
          ∙ (prepare-Lacks world name cdb).made)
    ∙ any-applied world name setting (name_any cdb) ns oref (members cdb.spec.app_services) _
