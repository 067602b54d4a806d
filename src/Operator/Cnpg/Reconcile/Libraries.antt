-- ===== src/Operator/Cnpg/Reconcile/Libraries.antt =====
-- Which libraries a cluster is made to preload (tembo-operator/src/cloudnativepg/cnpg.rs).
use tembo.Prelude.{
  ◌≡◌, refl, ap, ◌∙◌, String, Bool, true, false, not, ◌||◌, Option, none, some, List, [], ◌∷◌, any,
  retain, arith, eq_iff, eq_refl, list_contains, unwrap_or, if◌then◌else◌,
}
use tembo.Prelude.Result
use tembo.Prelude.Result.{Result, ok, err, ok_or, ok-injective, >>=-ok, Result-cases}
use tembo.Prelude.Trace.{
  Lacks, Lacks-then, Lacks-seq, Lacks-lift, Lacks-call, Lacks-if, lift-some, pure, fail, lift,
}
use tembo.Operator.Types.{CoreDb, CoreDbStatus}
use tembo.Operator.Patches.Lacks.{restart_and_wait_for_restart-Lacks, is_image_updated-Lacks}
use tembo.Operator.Api.{
  Action, requeue, KubeError, Effect, patch, cluster, cluster_object, Run, name_any,
}
use tembo.Operator.Api.ClusterTypes.{Cluster}
use tembo.Operator.Patches.{namespace_of, or_requeue}
use tembo.Operator.Cnpg.Fencing.{Answers, pods_to_fence}
use tembo.Operator.Cnpg.Build.{cnpg_cluster_from_cdb}
use tembo.Operator.Cnpg.Reconcile.{
  same_texts, installed_among, file_of, list_libraries, current_libraries, select_libraries,
  patch_cluster, reconcile_metrics_service, reconcile_metrics_ingress_route, metrics_ingress,
  prepare, require_running, with_libraries, apply_cluster, reconcile_cnpg,
}

-- A library that the cluster has already, or that has a file in the pod.
abbrev pub is_backed : List String → List String → String → Bool
is_backed current_libs available_libs library =
    list_contains current_libs library || list_contains available_libs (file_of library)

abbrev pub files_of : Result Action (List String) → List String
files_of (ok files) = files
files_of (err action) = []

-- A call that gives the cluster a library that is neither.
abbrev pub is_unbacked : List String → List String → Effect → Bool
is_unbacked current_libs available_libs (patch _ _ _ (cluster_object object)) =
    any (λ library. not (is_backed current_libs available_libs library))
      (unwrap_or [] object.spec.shared_preload_libraries)
is_unbacked current_libs available_libs _ = false

same_texts-path : (ss ts : List String) → same_texts ss ts ≡ true → ss ≡ ts
unfolding same_texts
same_texts-path [] [] h = refl
same_texts-path [] (t ∷ ts) h = cc
same_texts-path (s ∷ ss) [] h = cc
same_texts-path (s ∷ ss) (t ∷ ts) h = ground (arith, eq_iff s t, same_texts-path ss ts)

module _ (current_libs available_libs : List String) where
  all_current :
      (libs : List String)
      → ((l : String) → list_contains libs l ≡ true → list_contains current_libs l ≡ true)
      → any (λ l. not (is_backed current_libs available_libs l)) libs ≡ false
  unfolding list_contains
  all_current [] h = refl
  all_current (l ∷ ls) h =
      ground (arith, h l, eq_refl l, all_current ls (λ k e. h k (ground arith)))

  all_available :
      (libs : List String)
      → any
          (λ l. not (is_backed current_libs available_libs l))
          (retain (λ l. list_contains available_libs (file_of l)) libs)
        ≡ false
  unfolding retain
  all_available [] = refl
  all_available (l ∷ ls) = ground (arith, all_available ls)

module _ (answers : Answers) (cdb : CoreDb) where
  -- The files that the primary pod lists.
  abbrev pub available : List String
  available = files_of (list_libraries answers cdb)

  -- The files that count for a cluster: none, where it cannot be read.
  abbrev pub usable : Result KubeError Cluster → List String
  usable (err e) = []
  usable (ok current) = available

  select_libraries-backed :
      (maybe_cluster : Result KubeError Cluster) (wanted libs : Option (List String))
      → select_libraries answers cdb maybe_cluster wanted ≡ ok libs
      → any
          (λ l. not (is_backed (current_libraries maybe_cluster) (usable maybe_cluster) l))
          (unwrap_or [] libs)
        ≡ false
  unfolding select_libraries installed_among
  select_libraries-backed maybe_cluster none libs h =
      let same : none ≡ libs = ok-injective h in rw⁻¹ same refl
  select_libraries-backed (err e) (some new_libs) libs h =
      let same : none ≡ libs = ok-injective h in rw⁻¹ same refl
  select_libraries-backed (ok current) (some new_libs) libs h =
      changed (same_texts (current_libraries (ok current)) new_libs)
        (same_texts-path (current_libraries (ok current)) new_libs) (list_libraries answers cdb) h
    where
      changed :
          (is_same : Bool)
          → (is_same ≡ true → current_libraries (ok current) ≡ new_libs)
          → (listed : Result Action (List String))
          → (if is_same
              then ok (some new_libs)
              else Result.◌>>=◌ listed
                  (λ available_libs. ok (some (installed_among available_libs new_libs))))
            ≡ ok libs
          → any
              (λ l. not (is_backed (current_libraries (ok current)) (files_of listed) l))
              (unwrap_or [] libs)
            ≡ false
      changed true e listed k =
          let same : some new_libs ≡ libs = ok-injective k in
          rw⁻¹ same (
            all_current (current_libraries (ok current)) (files_of listed) new_libs
              (λ l in_new. rw (e refl) in_new))
      changed false e (ok files) k =
          let same : some (installed_among files new_libs) ≡ libs = ok-injective k in
          rw⁻¹ same (all_available (current_libraries (ok current)) files _)
      changed false e (err action) k = cc

  abbrev bad : Result KubeError Cluster → Effect → Bool
  bad maybe_cluster = is_unbacked (current_libraries maybe_cluster) (usable maybe_cluster)

  prepare-Lacks :
      (current libs : List String) (maybe_cluster : Result KubeError Cluster)
      → Lacks (is_unbacked current libs) (prepare answers.world cdb maybe_cluster)
  prepare-Lacks current libs (err e) = Lacks-lift _ (ok tt)
  prepare-Lacks current libs (ok found) =
      Lacks-seq _ _ _
        (restart_and_wait_for_restart-Lacks (is_unbacked current libs) answers.world cdb
          (λ namespace at. refl) (λ namespace b. refl) (some found))
        (is_image_updated-Lacks (is_unbacked current libs) cdb (λ namespace image. refl)
          (some found))

  require_running-Lacks :
      (p : Effect → Bool) (status : Option CoreDbStatus) → Lacks p (require_running status)
  require_running-Lacks p none = Lacks-lift p (ok tt)
  require_running-Lacks p (some status) =
      Lacks-if p status.running (pure tt) (fail (requeue 10)) (λ _. Lacks-lift p (ok tt))
        (λ _. Lacks-lift p (err (requeue 10)))

  metrics_ingress-Lacks :
      (current libs : List String) (basedomain : Option String)
      → Lacks (is_unbacked current libs) (metrics_ingress answers.world cdb basedomain)
  metrics_ingress-Lacks current libs none = Lacks-lift _ (ok tt)
  metrics_ingress-Lacks current libs (some domain) = Lacks-call _ _ _ refl

  apply_cluster-Lacks :
      (object : Cluster) (maybe_cluster : Result KubeError Cluster)
      → Lacks (bad maybe_cluster) (apply_cluster answers cdb object maybe_cluster)
  unfolding patch_cluster reconcile_metrics_service reconcile_metrics_ingress_route
  apply_cluster-Lacks object maybe_cluster =
      Lacks-then (bad maybe_cluster)
        (lift (select_libraries answers cdb maybe_cluster object.spec.shared_preload_libraries)) _
        (Lacks-lift (bad maybe_cluster) _)
        (λ libs chosen.
          Lacks-seq (bad maybe_cluster)
            (patch_cluster answers.world (with_libraries object libs) cdb) _
            (Lacks-then (bad maybe_cluster) (namespace_of cdb) _ (Lacks-lift (bad maybe_cluster) _)
              (λ namespace _.
                Lacks-call (bad maybe_cluster)
                  (patch cluster namespace (name_any cdb)
                    (cluster_object (with_libraries object libs)))
                  _
                  (select_libraries-backed maybe_cluster object.spec.shared_preload_libraries libs
                    chosen)))
            (Lacks-seq (bad maybe_cluster) (reconcile_metrics_service answers.world cdb) _
              (Lacks-then (bad maybe_cluster) (namespace_of cdb) _
                (Lacks-lift (bad maybe_cluster) _)
                (λ namespace _. Lacks-call (bad maybe_cluster) _ _ refl))
              (metrics_ingress-Lacks _ _ answers.basedomain)))

  -- Whatever is answered, each library that a call gives the cluster of an instance is one that
  -- the cluster has already, or one with a file in the directory of libraries that the primary pod
  -- lists; where the cluster cannot be read, no call gives it any library.
  pub reconcile_cnpg-libraries :
      (namespace : String)
      → cdb.namespace ≡ some namespace
      → any
          (is_unbacked
            (current_libraries (answers.world.get_cluster namespace (name_any cdb)))
            (usable (answers.world.get_cluster namespace (name_any cdb))))
          (reconcile_cnpg answers cdb).0
        ≡ false
  unfolding reconcile_cnpg
  reconcile_cnpg-libraries namespace h =
      let maybe_cluster = answers.world.get_cluster namespace (name_any cdb) in
      let p = bad maybe_cluster in
      ap (λ (m : Run (Unit {0})). any p m.0) (lift-some (requeue 300) cdb.namespace namespace _ h)
      ∙ (Lacks-then p (lift (pods_to_fence answers cdb)) _ (Lacks-lift p _) (λ fenced _.
          Lacks-then p (lift (answers.pods.extensions_that_require_load namespace)) _
            (Lacks-lift p _)
            (λ requires_load _.
              Lacks-seq p (prepare answers.world cdb maybe_cluster) _
                (prepare-Lacks _ _ maybe_cluster)
                (Lacks-then p
                  (lift (or_requeue 300 (answers.world.get_coredb namespace (name_any cdb)))) _
                  (Lacks-lift p _)
                  (λ current _.
                    Lacks-seq p (require_running current.status) _
                      (require_running-Lacks p current.status)
                      (apply_cluster-Lacks
                        (cnpg_cluster_from_cdb answers.env cdb (some fenced) requires_load)
                        maybe_cluster)))))).made
