-- ===== src/Operator/AppService/Reconcile/Settled.antt =====
-- Calls none of which has failed, and the parts of a reconciliation of the applications that end
-- without an error only after such (tembo-operator/src/app_service/ingress.rs).
use tembo.Prelude.{
  ◌≡◌, ◌∙◌, refl, Bool, true, false, ◌&&◌, Option, none, some, List, [], ◌∷◌, arith, String, any,
  any-append, if◌then◌else◌,
}
use tembo.Prelude.Result.{Result, ok, err}
use tembo.Prelude.Trace.{Trace, pure, call, lift, ◌>>=◌, ◌>>◌, Lacks}
use tembo.Operator.Types.AppServices.{Middleware}
use tembo.Operator.Api.{KubeError}
use tembo.Operator.AppService.Objects.{
  OwnerReference, IngressRouteRoutes, IngressRouteTcpRoutes, MiddleWareWrapper,
}
use tembo.Operator.AppService.Calls.{
  Call, World, is_err, is_refused, refused, nameless, or_refused, read_service, read_middlewares,
  read_ingress_routes, read_ingress_routes_tcp, Attempts, nothing, ◌also◌, attempt, ignored, each,
  noted, delete_pod_monitor, delete_middleware, patch_middleware, delete_ingress_route,
  delete_ingress_route_tcp,
}
use tembo.Operator.AppService.Ingress.{
  Run, named, change_middlewares, reconcile_middlewares, delete_first, apply_ingress_route,
  reconcile_ingress, apply_ingress_route_tcp, reconcile_ingress_tcp,
}
use tembo.Operator.AppService.Ingress.Made.{change_middlewares-Lacks}

-- The calls whose failure is more than logged.
abbrev pub counts : Call → Bool
counts (delete_pod_monitor _) = false
counts (delete_middleware _) = false
counts (patch_middleware _ _) = false
counts (read_service _) = false
counts _ = true

-- A call that counts and that is answered with an error.
unfoldable pub has_failed : World → Call → Bool
has_failed world asked = counts asked && is_refused world asked

-- Where nothing is noted, no call that counts has failed.
pub record Reports (world : World) (m : Attempts) : Type 0 where
  pub clean : m.1 ≡ some false → any (has_failed world) m.0 ≡ false

pub record Settles {e} {Err : Type e} (world : World) (m : Trace Call Err (Unit {0})) : Type e where
  pub clean : m.1 ≡ ok tt → any (has_failed world) m.0 ≡ false

module _ (world : World) where
  pub nothing-Reports : Reports world nothing
  nothing-Reports = record { clean = λ _. refl }

  pub also-Reports : (m n : Attempts) → Reports world m → Reports world n → Reports world (m also n)
  also-Reports (asked, none) n h k = record { clean = λ l. cc }
  also-Reports (asked, some b) (later, none) h k = record { clean = λ l. cc }
  also-Reports (asked, some true) (later, some c) h k = record { clean = λ l. cc }
  also-Reports (asked, some false) (later, some c) h k = record {
    clean =
        λ l. any-append (has_failed world) asked later ∙ ground (arith, h.clean refl, k.clean l);
  }

  pub attempt-Reports : (asked : Call) → Reports world (attempt world asked)
  unfolding has_failed
  attempt-Reports asked = record {
    clean = λ h. let answered : is_refused world asked ≡ false = cc in ground (arith, answered);
  }

  pub ignored-Reports : (asked : Call) → counts asked ≡ false → Reports world (ignored asked)
  unfolding has_failed
  ignored-Reports asked h = record { clean = λ _. ground arith }

  pub each-Reports :
      {A : Type 0} (body : A → Attempts) (xs : List A)
      → ((x : A) → Reports world (body x))
      → Reports world (each body xs)
  unfolding each
  each-Reports body [] h = nothing-Reports
  each-Reports body (x ∷ xs) h = also-Reports (body x) (each body xs) (h x) (each-Reports body xs h)

  pub noted-Reports : (m : Run) → Settles world m → Reports world (noted m)
  noted-Reports (asked, ok tt) h = record { clean = λ _. h.clean refl }
  noted-Reports (asked, err (refused problem)) h = record { clean = λ k. cc }
  noted-Reports (asked, err nameless) h = record { clean = λ k. cc }

  module _ {e} {Err : Type e} where
    pub bind-Settles {a} :
        {Val : Type a} (res : Result Err Val) (f : Val → Trace Call Err (Unit {0}))
        → ((x : Val) → Settles world (f x))
        → Settles world (lift res >>= f)
    bind-Settles (ok x) f h = record { clean = λ k. (h x).clean k }
    bind-Settles (err problem) f h = record { clean = λ k. cc }

    pub then-Settles :
        (m n : Trace Call Err (Unit {0}))
        → Settles world m
        → Settles world n
        → Settles world (m >> n)
    then-Settles (asked, ok tt) n h k = record {
      clean =
          λ l. any-append (has_failed world) asked n.0 ∙ ground (arith, h.clean refl, k.clean l);
    }
    then-Settles (asked, err problem) n h k = record { clean = λ l. cc }

    pub if-Settles :
        (b : Bool) (m n : Trace Call Err (Unit {0}))
        → Settles world m
        → Settles world n
        → Settles world (if b then m else n)
    if-Settles true m n h k = h
    if-Settles false m n h k = k

    pub pure-Settles : Settles world (pure {Err = Err} tt)
    pure-Settles = record { clean = λ _. refl }

    pub Lacks-Settles :
        (m : Trace Call Err (Unit {0})) → Lacks (has_failed world) m → Settles world m
    Lacks-Settles m h = record { clean = λ _. h.made }

    -- A call that is answered with a value has not failed.
    pub done-Settles :
        (asked : Call) (res : Result Err (Unit {0}))
        → (res ≡ ok tt → is_refused world asked ≡ false)
        → Settles world (call asked res)
    unfolding has_failed
    done-Settles asked res h = record { clean = λ k. ground (arith, h k) }

    pub read-Settles {a} :
        {Val : Type a} (asked : Call) (res : Result Err Val) (f : Val → Trace Call Err (Unit {0}))
        → ((x : Val) → res ≡ ok x → is_refused world asked ≡ false)
        → ((x : Val) → Settles world (f x))
        → Settles world (call asked res >>= f)
    unfolding has_failed
    read-Settles asked (ok x) f h k = record {
      clean = λ l. ground (arith, h x refl, (k x).clean l);
    }
    read-Settles asked (err problem) f h k = record { clean = λ l. cc }

  or_refused-ok :
      {A : Type 0} (res : Result KubeError A) (x : A) → or_refused res ≡ ok x → is_err res ≡ false
  or_refused-ok (ok y) x h = refl
  or_refused-ok (err problem) x h = cc

  named-ok :
      (res : Result KubeError (List (Option String))) (names : List String)
      → named res ≡ ok names
      → is_err res ≡ false
  named-ok (ok found) names h = refl
  named-ok (err problem) names h = cc

  -- A call that changes something, where its answer is that of `answer`.
  call-Settles :
      (asked : Call)
      → is_refused world asked ≡ is_err (world.answer asked)
      → Settles world (call asked (or_refused (world.answer asked)))
  call-Settles asked same =
      done-Settles asked _ (λ h. same ∙ or_refused-ok (world.answer asked) tt h)

  middlewares-Settles :
      (name : String) (desired : List MiddleWareWrapper)
      → Settles world (reconcile_middlewares world name desired)
  unfolding has_failed reconcile_middlewares is_refused
  middlewares-Settles name desired =
      read-Settles (read_middlewares name) (named (world.list_middlewares name)) _
        (named-ok (world.list_middlewares name))
        (λ actual.
          Lacks-Settles (change_middlewares desired actual)
            (change_middlewares-Lacks (has_failed world) (λ d. refl) (λ d mw. refl) desired actual))

  delete_first-Settles :
      (delete : String → Call) (found : List (Option String))
      → ((d : String) → is_refused world (delete d) ≡ is_err (world.answer (delete d)))
      → Settles world (delete_first world delete found)
  delete_first-Settles delete [] h = pure-Settles
  delete_first-Settles delete (none ∷ found) h = record { clean = λ k. cc }
  delete_first-Settles delete (some name ∷ found) h = call-Settles (delete name) (h name)

  pub apply_ingress_route-Settles :
      (coredb_name ns : String) (oref : OwnerReference) (routes : List IngressRouteRoutes)
      (entry_points : List String)
      → Settles world (apply_ingress_route world coredb_name ns oref routes entry_points)
  unfolding is_refused
  apply_ingress_route-Settles coredb_name ns oref [] entry_points =
      read-Settles read_ingress_routes (or_refused world.list_ingress_routes) _
        (or_refused-ok world.list_ingress_routes)
        (λ found. delete_first-Settles delete_ingress_route found (λ d. refl))
  apply_ingress_route-Settles coredb_name ns oref (r ∷ routes) entry_points = call-Settles _ refl

  pub apply_ingress_route_tcp-Settles :
      (name ns : String) (oref : OwnerReference) (routes : List IngressRouteTcpRoutes)
      (entry_points : List String)
      → Settles world (apply_ingress_route_tcp world name ns oref routes entry_points)
  unfolding is_refused
  apply_ingress_route_tcp-Settles name ns oref [] entry_points =
      read-Settles read_ingress_routes_tcp (or_refused world.list_ingress_routes_tcp) _
        (or_refused-ok world.list_ingress_routes_tcp)
        (λ found. delete_first-Settles delete_ingress_route_tcp found (λ d. refl))
  apply_ingress_route_tcp-Settles name ns oref (r ∷ routes) entry_points =
      if-Settles _ _ _ (call-Settles _ refl) pure-Settles

  pub reconcile_ingress-Settles :
      (coredb_name ns : String) (oref : OwnerReference) (routes : List IngressRouteRoutes)
      (middlewares : List Middleware) (entry_points : List String)
      → Settles world (reconcile_ingress world coredb_name ns oref routes middlewares entry_points)
  unfolding reconcile_ingress
  reconcile_ingress-Settles coredb_name ns oref routes middlewares entry_points =
      then-Settles _ _ (middlewares-Settles _ _)
        (apply_ingress_route-Settles coredb_name ns oref routes entry_points)

  pub reconcile_ingress_tcp-Settles :
      (coredb_name ns : String) (oref : OwnerReference) (routes : List IngressRouteTcpRoutes)
      (middlewares : List Middleware) (entry_points : List String) (app_name : String)
      → Settles world
          (reconcile_ingress_tcp world coredb_name ns oref routes middlewares entry_points app_name)
  unfolding reconcile_ingress_tcp
  reconcile_ingress_tcp-Settles coredb_name ns oref routes middlewares entry_points app_name =
      then-Settles _ _ (middlewares-Settles _ _)
        (apply_ingress_route_tcp-Settles _ ns oref routes entry_points)
