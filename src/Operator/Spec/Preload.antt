-- ===== src/Operator/Spec/Preload.antt =====
-- The libraries that the extensions require are preloaded
-- (tembo-operator/src/apis/coredb_types.rs).
use tembo.Prelude.{
  String, ◌≡◌, ◌∙◌, ap, refl, Bool, true, false, Option, none, some, List, [], ◌∷◌, arith, ◌==◌,
  eq_iff, eq_refl, unwrap_or, list_contains, any, In, inl, inr, ◌||◌,
}
use mathlib.Core.List.{tail}
use tembo.Prelude.BTreeSet
use tembo.Prelude.BTreeSet.{BTreeSet, has-insert}
use tembo.Prelude.BTreeMap
use tembo.Prelude.BTreeMap.{BTreeMap}
use tembo.Prelude.Result.{ok, >>=-ok, ok-injective}
use tembo.Operator.Params.Names.{multi_val_configs, disallowed_configs}
use tembo.Operator.Params.Value.{PgConfig, find_config, merge_pg_configs}
use tembo.Operator.Params.Merge.{value_has, found_has, merge_pg_configs-has, merge_pg_configs-found}
use tembo.Operator.Types.{CoreDbSpec, Extension}
use tembo.Operator.Spec.{
  shared_preload_libraries, with_library, require_library, libraries_from, replace_or_push,
  push_some, with_preload, runtime_layer, merge_multivals, config_of_stack, get_pg_configs,
  get_pg_config_by_name, default_settings,
}
use tembo.Operator.Spec.Layers.{find_last, layers, find_last-append_layers}
use tembo.Operator.Spec.Names.{get_pg_config_by_name-layers}

or_true : (a : Bool) → (a || true) ≡ true
or_true true = refl
or_true false = refl

module _ (requires_load : BTreeMap String) (lib : String) where
  has-with_library :
      (o : Option String) (libs : BTreeSet)
      → BTreeSet.has lib libs ≡ true
      → BTreeSet.has lib (with_library o libs) ≡ true
  has-with_library none libs h = h
  has-with_library (some l) libs h = rw has-insert (ground arith)

  has-require_library :
      (libs : BTreeSet) (ext : Extension)
      → BTreeSet.has lib libs ≡ true
      → BTreeSet.has lib (require_library requires_load libs ext) ≡ true
  has-require_library libs ext h =
      unfold require_library in
      ground (arith, has-with_library (BTreeMap.get ext.name requires_load) libs h)

  libraries_from_keeps :
      (libs : BTreeSet) (exts : List Extension)
      → BTreeSet.has lib libs ≡ true
      → BTreeSet.has lib (libraries_from requires_load libs exts) ≡ true
  unfolding libraries_from
  libraries_from_keeps libs [] h = h
  libraries_from_keeps libs (e ∷ es) h =
      libraries_from_keeps (require_library requires_load libs e) es (has-require_library libs e h)

  require_library-has :
      (libs : BTreeSet) (ext : Extension)
      → any (λ l. l.enabled) ext.locations ≡ true
      → BTreeMap.get ext.name requires_load ≡ some lib
      → BTreeSet.has lib (require_library requires_load libs ext) ≡ true
  require_library-has libs ext on r =
      let self : (lib == lib) ≡ true = eq_refl lib in
      unfold require_library in
      rw (on, r) (has-insert lib lib libs ∙ ap (λ b. b || BTreeSet.has lib libs) self)

  has-libraries_from :
      (libs : BTreeSet) (exts : List Extension) (ext : Extension)
      → In ext exts
      → any (λ l. l.enabled) ext.locations ≡ true
      → BTreeMap.get ext.name requires_load ≡ some lib
      → BTreeSet.has lib (libraries_from requires_load libs exts) ≡ true
  unfolding libraries_from
  has-libraries_from libs [] ext m on r = absurd m
  has-libraries_from libs (e ∷ es) ext (inl same) on r = rw (← same) (
      libraries_from_keeps (require_library requires_load libs ext) es
        (require_library-has libs ext on r))
  has-libraries_from libs (e ∷ es) ext (inr m) on r =
      has-libraries_from (require_library requires_load libs e) es ext m on r

found-replace_or_push :
    (j name : String) (new : PgConfig) (cfgs : List PgConfig)
    → new.name ≡ name
    → found_has j (find_config name (replace_or_push name new cfgs)) ≡ value_has j new.value
unfolding find_config replace_or_push
found-replace_or_push j name new [] h = ground (arith, eq_iff new.name name)
found-replace_or_push j name new (c ∷ cs) h =
    ground (arith, eq_iff c.name name, found-replace_or_push j name new cs)

find_last-push_some :
    (m : Option PgConfig) (rest : List PgConfig) (n name : String)
    → ((c : PgConfig) → m ≡ some c → c.name ≡ n)
    → (n == name) ≡ false
    → find_last name rest ≡ none
    → find_last name (push_some m rest) ≡ none
unfolding find_last
find_last-push_some none rest n name named other h = h
find_last-push_some (some c) rest n name named other h = rw (h, named c refl, other)

find_last-push_self :
    (c : PgConfig) (rest : List PgConfig) (name : String)
    → c.name ≡ name
    → find_last name rest ≡ none
    → find_last name (c ∷ rest) ≡ some c
unfolding find_last
find_last-push_self c rest name same h = rw (h, same, eq_refl name)

merge_multivals-cons :
    (stack runtime : List PgConfig) (n : String) (ns : List String) (merged : List PgConfig)
    → merge_multivals stack runtime (n ∷ ns) ≡ ok merged
    → (m : Option PgConfig) × (rest : List PgConfig) × (merge_pg_configs stack runtime n ≡ ok m)
      × (merge_multivals stack runtime ns ≡ ok rest)
      × (push_some m rest ≡ merged)
unfolding merge_multivals
merge_multivals-cons stack runtime n ns merged h =
    let (m, e, h') = >>=-ok (merge_pg_configs stack runtime n) _ h in
    let (rest, f, h'') = >>=-ok (merge_multivals stack runtime ns) _ h' in
    (m, rest, e, f, ok-injective h'')

find_last-merge_multivals :
    (stack runtime : List PgConfig) (names : List String) (merged : List PgConfig) (name : String)
    → list_contains names name ≡ false
    → merge_multivals stack runtime names ≡ ok merged
    → find_last name merged ≡ none
unfolding merge_multivals
find_last-merge_multivals stack runtime [] merged name absent h =
    rw (← ok-injective h) (unfold find_last in refl)
find_last-merge_multivals stack runtime (n ∷ ns) merged name absent h =
    let (m, rest, e, f, same) = merge_multivals-cons stack runtime n ns merged h in
    let parts : ((n == name) ≡ false) × (list_contains ns name ≡ false) =
      unfold list_contains in ground arith in
    rw (← same) (
      find_last-push_some m rest n name
        (λ c eq. (merge_pg_configs-has stack runtime n c (e ∙ ap ok eq)).0) parts.0
        (find_last-merge_multivals stack runtime ns rest name parts.1 f))

found-with_preload :
    (j : String) (m : Option PgConfig) (cfgs : List PgConfig)
    → ((c : PgConfig) → m ≡ some c → c.name ≡ shared_preload_libraries)
    → found_has j m ≡ true
    → found_has j (find_config shared_preload_libraries (with_preload m cfgs)) ≡ true
found-with_preload j none cfgs named h = cc
found-with_preload j (some c) cfgs named h =
    found-replace_or_push j shared_preload_libraries c cfgs (named c refl) ∙ h

runtime_layer-has :
    (spec : CoreDbSpec) (requires_load : BTreeMap String) (lib : String) (runtime : List PgConfig)
    → BTreeSet.has lib (libraries_from requires_load [] spec.extensions) ≡ true
    → runtime_layer spec requires_load ≡ ok runtime
    → found_has lib (find_config shared_preload_libraries runtime) ≡ true
unfolding runtime_layer
runtime_layer-has spec requires_load lib runtime has h =
    let cfgs = unwrap_or [] spec.runtime_config in
    let (m, e, h') = >>=-ok (merge_pg_configs cfgs _ shared_preload_libraries) _ h in
    rw (← ok-injective h') (
      found-with_preload lib m cfgs
        (λ c same. (merge_pg_configs-has cfgs _ shared_preload_libraries c (e ∙ ap ok same)).0)
        (merge_pg_configs-found cfgs _ shared_preload_libraries lib m e
          ∙ unfold find_config in rw has (or_true _)))

libraries_allowed : list_contains disallowed_configs shared_preload_libraries ≡ false
unfolding list_contains
libraries_allowed = refl

libraries_not_among_others : list_contains (tail multi_val_configs) shared_preload_libraries ≡ false
unfolding list_contains
libraries_not_among_others = refl

find_last-layers :
    (stack runtime merged overrides : List PgConfig) (c : PgConfig)
    → find_last shared_preload_libraries overrides ≡ none
    → find_last shared_preload_libraries merged ≡ some c
    → find_last shared_preload_libraries (layers stack runtime merged overrides) ≡ some c
find_last-layers stack runtime merged overrides c free last =
    find_last-append_layers shared_preload_libraries default_settings stack runtime merged overrides
    ∙ rw (free, last)

-- The first merged list is that of the shared libraries.
merged_libraries :
    (stack runtime merged : List PgConfig) (lib : String)
    → found_has lib (find_config shared_preload_libraries runtime) ≡ true
    → merge_multivals stack runtime multi_val_configs ≡ ok merged
    → (c : PgConfig) × (find_last shared_preload_libraries merged ≡ some c)
      × (value_has lib c.value ≡ true)
merged_libraries stack runtime merged lib has h =
    let (m, rest, e, f, same) =
      merge_multivals-cons stack runtime shared_preload_libraries (tail multi_val_configs) merged
        h in
    let there : found_has lib m ≡ true =
      merge_pg_configs-found stack runtime shared_preload_libraries lib m e ∙ rw has (or_true _) in
    go m e there rest same (
      find_last-merge_multivals stack runtime (tail multi_val_configs) rest shared_preload_libraries
        libraries_not_among_others f)
  where
    go :
        (m : Option PgConfig)
        → merge_pg_configs stack runtime shared_preload_libraries ≡ ok m
        → found_has lib m ≡ true
        → (rest : List PgConfig) → push_some m rest ≡ merged
        → find_last shared_preload_libraries rest ≡ none
        → (c : PgConfig) × (find_last shared_preload_libraries merged ≡ some c)
          × (value_has lib c.value ≡ true)
    go none e there rest same absent = absurd (cc there)
    go (some c) e there rest same absent = (
      c,
      rw (← same) (
          find_last-push_self c _ shared_preload_libraries
            (merge_pg_configs-has stack runtime shared_preload_libraries c e).0 absent),
      there,
    )

-- If an extension is enabled in some database and requires a library, and `get_pg_configs`
-- succeeds, then the library is among the shared libraries, unless the overrides set these.
pub get_pg_config_by_name-library :
    (spec : CoreDbSpec) (requires_load : BTreeMap String) (o : Option (List PgConfig))
    (ext : Extension) (lib : String)
    → get_pg_configs spec requires_load ≡ ok o
    → In ext spec.extensions
    → any (λ l. l.enabled) ext.locations ≡ true
    → BTreeMap.get ext.name requires_load ≡ some lib
    → find_last shared_preload_libraries (unwrap_or [] spec.override_configs) ≡ none
    → (c : PgConfig) × (get_pg_config_by_name spec shared_preload_libraries requires_load
        ≡ ok (some c))
      × (value_has lib c.value ≡ true)
get_pg_config_by_name-library spec requires_load o ext lib h m on r free =
    let (runtime, merged, e, f, same) =
      get_pg_config_by_name-layers spec requires_load o shared_preload_libraries h in
    let required = has-libraries_from requires_load lib [] spec.extensions ext m on r in
    let (c, last, has) =
      merged_libraries (config_of_stack spec.stack) runtime merged lib
        (runtime_layer-has spec requires_load lib runtime required e) f in
    (
      c,
      same
          ∙ rw libraries_allowed
              (rw (find_last-layers (config_of_stack spec.stack) runtime merged _ c free last)),
      has,
    )
