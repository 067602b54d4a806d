-- ===== src/Operator/AppService/Environment/Found.antt =====
-- Which value a variable of an application's container has
-- (tembo-operator/src/app_service/manager.rs).

use tembo.Prelude.{
  String, ◌≡◌, ◌∙◌, refl, sym, ap, Option, none, some, List, [], ◌∷◌, ◌++◌, map, inl, inr, arith,
  eq_iff, ◌==◌, if◌then◌else◌, Bool-cases, eq_refl, true, false, find, members, All-append,
}
use tembo.Prelude.BTreeMap.{BTreeMap}
use tembo.Operator.Types.AppServices.{EnvVar, AppService}
use tembo.Operator.AppService.EnvVars.{EnvVarManager, Entries, put, put_all}
use tembo.Operator.AppService.EnvVars.Refined.{set_all-new}
use tembo.Operator.AppService.EnvVars.Values.{
  value_of, last_of, value_of-put_all, IsNamed, put_all-IsNamed,
}
use tembo.Operator.AppService.Environment.{
  env_vars, sets, connections, conn, from_secret, apps_connection_secret_name, annotated, platform,
  by_name, user_vars,
}

-- The last variable of a name.
unfoldable pub last_named : String → List EnvVar → Option EnvVar
last_named name [] = none
last_named name (v ∷ vs) = elim (last_named name vs) [
  | some w ↦ some w
  | none ↦ if v.name == name then some v else none
]

-- The variables that remain, in the order of their sets: that of the connection `r_uri`, which the
-- source sets first, under the key of the read-write connection, is not among them.
unfoldable pub remaining :
    List EnvVar → AppService → String → String → BTreeMap String → List EnvVar
remaining forwarded appsvc coredb_name namespace annotations =
    let secret_name = apps_connection_secret_name coredb_name in
    from_secret (conn coredb_name "_RO_CONNECTION") secret_name "ro_uri"
    ∷ from_secret (conn coredb_name "_RW_CONNECTION") secret_name "rw_uri"
    ∷ (map (λ e. e.1) (platform namespace annotations)
        ++ (forwarded ++ user_vars secret_name (members appsvc.env)))

find_value :
    (name : String) (es : Entries)
    → IsNamed es
    → find (λ v. v.name == name) (map (λ e. e.1) es) ≡ value_of name es
unfolding find value_of
find_value name [] h = refl
find_value name ((k, v) ∷ es) (h, hs) = rw h (ground (arith, find_value name es hs))

last_value :
    (name : String) (es : Entries)
    → IsNamed es
    → last_of name es ≡ last_named name (map (λ e. e.1) es)
unfolding last_of last_named
last_value name [] h = refl
last_value name ((k, v) ∷ es) (h, hs) =
    ground (arith, eq_iff k name, eq_iff v.name name, last_value name es hs)

annotated-IsNamed : (name : String) (o : Option String) → IsNamed (annotated name o)
unfolding annotated
annotated-IsNamed name none = tt
annotated-IsNamed name (some value) = (refl, tt)

platform-IsNamed :
    (namespace : String) (annotations : BTreeMap String) → IsNamed (platform namespace annotations)
unfolding platform
platform-IsNamed namespace annotations =
    All-append _ _ _ (annotated-IsNamed "TEMBO_INSTANCE_ID" _)
      (All-append _ _ _ (annotated-IsNamed "TEMBO_ORG_ID" _) (refl, tt))

by_name-IsNamed : (vs : List EnvVar) → IsNamed (map by_name vs)
by_name-IsNamed [] = tt
by_name-IsNamed (v ∷ vs) = (refl, by_name-IsNamed vs)

-- What the sets of the connections leave: the value that came first was overwritten.
module _ (ro_conn rw_conn : String) (r_value ro_value rw_value : EnvVar) where
  base : Entries
  base = put rw_conn rw_value (put ro_conn ro_value ((rw_conn, r_value) ∷ []))

  base_same : (rw_conn == ro_conn) ≡ true → base ≡ (rw_conn, rw_value) ∷ []
  unfolding base put
  base_same e = rw (e, eq_refl rw_conn) refl

  base_other : (rw_conn == ro_conn) ≡ false → base ≡ (rw_conn, rw_value) ∷ (ro_conn, ro_value) ∷ []
  unfolding base put
  base_other e = rw (e, eq_refl rw_conn) refl

  base-IsNamed : ro_value.name ≡ ro_conn → rw_value.name ≡ rw_conn → IsNamed base
  base-IsNamed h k = elim (Bool-cases (rw_conn == ro_conn)) [
    | inl e ↦ rw (base_same e) (k, tt)
    | inr e ↦ rw (base_other e) (k, (h, tt))
  ]

  value_of-base :
      (name : String)
      → value_of name base ≡ (
          if rw_conn == name
          then some rw_value
          else if ro_conn == name
          then some ro_value
          else none)
  unfolding value_of
  value_of-base name = elim (Bool-cases (rw_conn == ro_conn)) [
    | inl e ↦ rw (base_same e) (rw ((eq_iff rw_conn ro_conn).0 e) (ground arith))
    | inr e ↦ rw (base_other e) refl
  ]

  find-base :
      (name : String) (es : Entries)
      → IsNamed es
      → ro_value.name ≡ ro_conn
      → rw_value.name ≡ rw_conn
      → find (λ v. v.name == name) (map (λ e. e.1) (put_all es base))
        ≡ last_named name (ro_value ∷ rw_value ∷ map (λ e. e.1) es)
  unfolding last_named
  find-base name es h k l =
      find_value name (put_all es base) (put_all-IsNamed es base h (base-IsNamed k l))
      ∙ value_of-put_all name es base
      ∙ rw (last_value name es h, k, l) (ground (arith, value_of-base name))

-- What is set after the connections.
later : List EnvVar → AppService → String → String → BTreeMap String → Entries
later forwarded appsvc coredb_name namespace annotations =
    platform namespace annotations
    ++ (map by_name forwarded
        ++ map by_name (user_vars (apps_connection_secret_name coredb_name) (members appsvc.env)))

map_append : (es ds : Entries) → map (λ e. e.1) (es ++ ds) ≡ map (λ e. e.1) es ++ map (λ e. e.1) ds
map_append [] ds = refl
map_append (e ∷ es) ds = ap (λ l. e.1 ∷ l) (map_append es ds)

values_by_name : (vs : List EnvVar) → map (λ e. e.1) (map by_name vs) ≡ vs
values_by_name [] = refl
values_by_name (v ∷ vs) = ap (λ l. v ∷ l) (values_by_name vs)

module _ (forwarded : List EnvVar) (appsvc : AppService) (coredb_name namespace : String)
    (annotations : BTreeMap String) where
  later-IsNamed : IsNamed (later forwarded appsvc coredb_name namespace annotations)
  unfolding later
  later-IsNamed =
      All-append _ _ _ (platform-IsNamed namespace annotations)
        (All-append _ _ _ (by_name-IsNamed forwarded) (by_name-IsNamed _))

  later_values :
      map (λ e. e.1) (later forwarded appsvc coredb_name namespace annotations)
      ≡ map (λ e. e.1) (platform namespace annotations)
        ++ (forwarded ++ user_vars (apps_connection_secret_name coredb_name) (members appsvc.env))
  unfolding later
  later_values =
      rw (map_append (platform namespace annotations), map_append (map by_name forwarded))
        (rw
          (
            values_by_name forwarded,
            values_by_name
                (user_vars (apps_connection_secret_name coredb_name) (members appsvc.env)),
          )
          refl)

  -- The environment is always made, and a name that is looked up in it gives the last variable of
  -- that name among these, in this order: the read-only and the read-write connection, the
  -- platform's, the forwarded ones, the user's. The connection `r_uri`, which the source is to map
  -- into the container too, is lost: its variable has a value only if a later part sets that name.
  pub env_vars-find :
      (m : EnvVarManager) × (env_vars forwarded appsvc coredb_name namespace annotations ≡ some m)
      × ((name : String)
          → find (λ v. v.name == name) m.vars
            ≡ last_named name (remaining forwarded appsvc coredb_name namespace annotations))
  unfolding env_vars sets connections put_all remaining later base put
  env_vars-find =
      let run = set_all-new (sets forwarded appsvc coredb_name namespace annotations) in
      let secret_name = apps_connection_secret_name coredb_name in
      let ro_conn = conn coredb_name "_RO_CONNECTION" in
      let rw_conn = conn coredb_name "_RW_CONNECTION" in
      (
        run.0,
        run.1,
        λ name. rw run.2 (
            rw (sym later_values) (
              find-base ro_conn rw_conn
                (from_secret (conn coredb_name "_R_CONNECTION") secret_name "r_uri")
                (from_secret ro_conn secret_name "ro_uri")
                (from_secret rw_conn secret_name "rw_uri") name
                (later forwarded appsvc coredb_name namespace annotations) later-IsNamed refl
                refl)),
      )
