-- ===== src/Operator/AppService/Reconcile/Reported.antt =====
-- What a reconciliation of the applications that reports no error has done
-- (tembo-operator/src/app_service/manager.rs and ingress.rs).
use tembo.Prelude.{◌≡◌, refl, true, false, Option, none, some, List, String, any}
use tembo.Prelude.BTreeMap.{BTreeMap}
use tembo.Prelude.Result.{Result, ok, err, ok_or}
use tembo.Prelude.Trace.{Trace}
use tembo.Operator.Types.{CoreDb}
use tembo.Operator.Types.AppServices.{AppService}
use tembo.Operator.Api.{KubeError}
use tembo.Operator.AppService.Objects.{OwnerReference, PlacementConfig, PodMonitor, Service}
use tembo.Operator.AppService.Workload.{Setting}
use tembo.Operator.AppService.Resources.{AppServiceResources}
use tembo.Operator.AppService.Calls.{
  Call, World, Attempts, is_err, is_refused, read_deployments, read_services, read_secret,
  delete_deployment, delete_service,
}
use tembo.Operator.AppService.Secret.{
  SecretError, kube, missing_secret, unwrapped, or_kube, fetch_all_decoded_data_from_secret,
  data_of, prepare_apps_connection_secret,
}
use tembo.Operator.AppService.Reconcile.{
  apply_podmonitor, apply_service, apply_resource, apply_resources, reap, reap_all, apply_ingress,
  applied, panicked, reported, or_300, reconcile_app_services,
}
use tembo.Operator.AppService.Reconcile.Settled.{
  has_failed, Reports, Settles, nothing-Reports, also-Reports, attempt-Reports, ignored-Reports,
  each-Reports, noted-Reports, bind-Settles, then-Settles, reconcile_ingress-Settles,
  reconcile_ingress_tcp-Settles, read-Settles, done-Settles,
}

module _ (world : World) where
  apply_podmonitor-Reports :
      (name : String) (pmon : Option PodMonitor) → Reports world (apply_podmonitor world name pmon)
  unfolding apply_podmonitor
  apply_podmonitor-Reports name none = ignored-Reports world _ refl
  apply_podmonitor-Reports name (some pmon) =
      also-Reports world _ _ (ignored-Reports world _ refl) (attempt-Reports world _)

  apply_service-Reports :
      (name : String) (service : Option Service) (pmon : Option PodMonitor)
      → Reports world (apply_service world name service pmon)
  unfolding apply_service
  apply_service-Reports name none pmon = nothing-Reports world
  apply_service-Reports name (some service) pmon =
      also-Reports world _ _ (attempt-Reports world _) (apply_podmonitor-Reports name pmon)

  apply_resource-Reports : (res : AppServiceResources) → Reports world (apply_resource world res)
  unfolding apply_resource
  apply_resource-Reports res =
      also-Reports world _ _ (attempt-Reports world _)
        (apply_service-Reports res.name res.service res.podmonitor)

  apply_resources-Reports :
      (resources : List AppServiceResources) → Reports world (apply_resources world resources)
  unfolding apply_resources
  apply_resources-Reports resources = each-Reports world _ resources apply_resource-Reports

  apply_ingress-Reports :
      (basedomain : Option String) (coredb_name ns : String) (oref : OwnerReference)
      (appsvcs : List AppService) (resources : List AppServiceResources)
      → Reports world (apply_ingress world basedomain coredb_name ns oref appsvcs resources)
  unfolding apply_ingress
  apply_ingress-Reports none coredb_name ns oref appsvcs resources = nothing-Reports world
  apply_ingress-Reports (some domain) coredb_name ns oref appsvcs resources =
      also-Reports world _ _
        (noted-Reports world _ (reconcile_ingress-Settles world coredb_name ns oref _ _ _))
        (each-Reports world _ appsvcs (λ a.
          noted-Reports world _
            (reconcile_ingress_tcp-Settles world coredb_name ns oref _ _ _ a.name)))

  reap-Reports :
      (delete : String → Call) (desired actual : List String)
      → Reports world (reap world delete desired actual)
  unfolding reap
  reap-Reports delete desired actual = each-Reports world _ _ (λ d. attempt-Reports world _)

  reap_all-Reports :
      (coredb_name : String) (appsvcs : List AppService)
      → Reports world (reap_all world coredb_name appsvcs)
  unfolding reap_all
  reap_all-Reports coredb_name appsvcs =
      also-Reports world _ _ (attempt-Reports world (read_deployments coredb_name)) (
        also-Reports world _ _ (attempt-Reports world (read_services coredb_name)) (
          also-Reports world _ _ (reap-Reports delete_deployment _ _)
            (reap-Reports delete_service _ _)))

  reported-Settles : (m : Attempts) → Reports world m → Settles world (reported m)
  reported-Settles (asked, none) h = record { clean = λ k. cc }
  reported-Settles (asked, some false) h = record { clean = λ _. h.clean refl }
  reported-Settles (asked, some true) h = record { clean = λ k. cc }

  applied-Settles :
      (setting : Setting) (coredb_name ns : String) (oref : OwnerReference)
      (appsvcs : List AppService) (made : Option (List AppServiceResources))
      → Settles world (applied world setting coredb_name ns oref appsvcs made)
  applied-Settles setting coredb_name ns oref appsvcs none = record { clean = λ k. cc }
  applied-Settles setting coredb_name ns oref appsvcs (some resources) = reported-Settles _ (
      also-Reports world _ _ (reap_all-Reports coredb_name appsvcs) (
        also-Reports world _ _ (apply_resources-Reports resources)
          (apply_ingress-Reports setting.basedomain coredb_name ns oref appsvcs resources)))

  or_300-Settles :
      (m : Trace Call SecretError (Unit {0})) → Settles world m → Settles world (or_300 m)
  or_300-Settles (asked, ok tt) h = record { clean = λ _. h.clean refl }
  or_300-Settles (asked, err unwrapped) h = record { clean = λ k. cc }
  or_300-Settles (asked, err (kube problem)) h = record { clean = λ k. cc }
  or_300-Settles (asked, err (missing_secret key)) h = record { clean = λ k. cc }

  or_kube-ok : (res : Result KubeError (Unit {0})) → or_kube res ≡ ok tt → is_err res ≡ false
  or_kube-ok (ok _) h = refl
  or_kube-ok (err problem) h = cc

  data_of-ok :
      (res : Result KubeError (Option (BTreeMap (Option String)))) (m : BTreeMap String)
      → data_of res ≡ ok m
      → is_err res ≡ false
  data_of-ok (ok found) m h = refl
  data_of-ok (err problem) m h = cc

  prepare-Settles : (cdb : CoreDb) → Settles world (prepare_apps_connection_secret world cdb)
  unfolding prepare_apps_connection_secret is_refused
  prepare-Settles cdb = bind-Settles world (ok_or unwrapped cdb.namespace) _ (λ namespace.
      bind-Settles world (ok_or unwrapped cdb.name) _ (λ name.
        read-Settles world (read_secret _) (fetch_all_decoded_data_from_secret world _) _
          (data_of-ok (world.get_secret _))
          (λ original. done-Settles world _ _ (or_kube-ok (world.answer _)))))

-- A reconciliation of the applications that ends without an error has had a success answered to each
-- of its calls, the reads included, other than those that change a middleware, remove a pod monitor
-- or read the service that is to own a pod monitor, the failures of which are only logged.
pub reconcile_app_services-ok :
    (world : World) (setting : Setting) (cdb : CoreDb) (placement : Option PlacementConfig)
    → (reconcile_app_services world setting cdb placement).1 ≡ ok tt
    → any (has_failed world) (reconcile_app_services world setting cdb placement).0 ≡ false
unfolding reconcile_app_services
reconcile_app_services-ok world setting cdb placement h =
    let settled = bind-Settles world (ok_or panicked cdb.namespace) _ (λ ns.
      bind-Settles world (ok_or panicked (world.controller_owner_ref cdb)) _ (λ oref.
        then-Settles world _ _ (or_300-Settles world _ (prepare-Settles world cdb))
          (applied-Settles world setting _ ns oref _ _))) in
    settled.clean h
