-- ===== src/Operator/Spec/Layers.antt =====
-- Which layer a parameter's value comes from (tembo-operator/src/apis/coredb_types.rs).
use tembo.Prelude.{
  String, ◌≡◌, ◌∙◌, refl, Option, none, some, List, [], ◌∷◌, ◌++◌, arith, ◌==◌, if◌then◌else◌,
  list_contains, All,
}
use tembo.Prelude.BTreeMap
use tembo.Prelude.BTreeMap.{
  BTreeMap, get-insert, get-remove, All-insert, All-remove, IsOrdered, insert-IsOrdered,
  remove-IsOrdered,
}
use tembo.Operator.Params.Names.{disallowed_configs}
use tembo.Operator.Params.Value.{PgConfig, find_config}
use tembo.Operator.Spec.{insert_all, remove_all, assemble, default_settings}

-- The last configuration of the name.
unfoldable pub find_last : String → List PgConfig → Option PgConfig
find_last name [] = none
find_last name (c ∷ cs) = elim (find_last name cs) [
  | some d ↦ some d
  | none ↦ if c.name == name then some c else none
]

abbrev pub or_else : Option PgConfig → Option PgConfig → Option PgConfig
or_else none o = o
or_else (some c) o = some c

or_else_assoc : (a b c : Option PgConfig) → or_else (or_else a b) c ≡ or_else a (or_else b c)
or_else_assoc none b c = refl
or_else_assoc (some a) b c = refl

pub find_last-append :
    (name : String) (cs ds : List PgConfig)
    → find_last name (cs ++ ds) ≡ or_else (find_last name ds) (find_last name cs)
unfolding find_last
find_last-append name [] ds = ground arith
find_last-append name (c ∷ cs) ds = ground (arith, find_last-append name cs ds)

pub get-insert_all :
    (name : String) (cs : List PgConfig) (m : BTreeMap PgConfig)
    → BTreeMap.get name (insert_all cs m) ≡ or_else (find_last name cs) (BTreeMap.get name m)
unfolding insert_all find_last
get-insert_all name [] m = refl
get-insert_all name (c ∷ cs) m =
    rw (get-insert_all name cs (BTreeMap.insert c.name c m), get-insert) (ground arith)

get-remove_all :
    (name : String) (ks : List String) (m : BTreeMap PgConfig)
    → BTreeMap.get name (remove_all ks m)
      ≡ (if list_contains ks name then none else BTreeMap.get name m)
unfolding remove_all list_contains
get-remove_all name [] m = refl
get-remove_all name (k ∷ ks) m =
    rw (get-remove_all name ks (BTreeMap.remove k m), get-remove) (ground arith)

-- Each entry stands under the name of its configuration.
abbrev pub IsKeyed : BTreeMap PgConfig → Type 0
IsKeyed m = All (λ e. e.1.name ≡ e.0) m

pub insert_all-IsKeyed :
    (cs : List PgConfig) (m : BTreeMap PgConfig) → IsKeyed m → IsKeyed (insert_all cs m)
unfolding insert_all
insert_all-IsKeyed [] m h = h
insert_all-IsKeyed (c ∷ cs) m h =
    insert_all-IsKeyed cs (BTreeMap.insert c.name c m)
      (All-insert (λ e. e.1.name ≡ e.0) c.name c m refl h)

remove_all-IsKeyed :
    (ks : List String) (m : BTreeMap PgConfig) → IsKeyed m → IsKeyed (remove_all ks m)
unfolding remove_all
remove_all-IsKeyed [] m h = h
remove_all-IsKeyed (k ∷ ks) m h =
    remove_all-IsKeyed ks (BTreeMap.remove k m) (All-remove (λ e. e.1.name ≡ e.0) k m h)

pub insert_all-IsOrdered :
    (cs : List PgConfig) (m : BTreeMap PgConfig) → IsOrdered m → IsOrdered (insert_all cs m)
unfolding insert_all
insert_all-IsOrdered [] m h = h
insert_all-IsOrdered (c ∷ cs) m h =
    insert_all-IsOrdered cs (BTreeMap.insert c.name c m) (insert-IsOrdered c.name c m h)

remove_all-IsOrdered :
    (ks : List String) (m : BTreeMap PgConfig) → IsOrdered m → IsOrdered (remove_all ks m)
unfolding remove_all
remove_all-IsOrdered [] m h = h
remove_all-IsOrdered (k ∷ ks) m h =
    remove_all-IsOrdered ks (BTreeMap.remove k m) (remove-IsOrdered k m h)

pub find_config-values :
    (name : String) (m : BTreeMap PgConfig)
    → IsKeyed m
    → find_config name (BTreeMap.values m) ≡ BTreeMap.get name m
unfolding find_config BTreeMap.get
find_config-values name [] h = refl
find_config-values name ((k, c) ∷ m) (h, hs) = rw h (ground (arith, find_config-values name m hs))

pub find_last-append_layers :
    (name : String) (a b c d e : List PgConfig)
    → find_last name (a ++ (b ++ (c ++ (d ++ e))))
      ≡ or_else (find_last name e) (
          or_else
            (find_last name d)
            (or_else (find_last name c) (or_else (find_last name b) (find_last name a))))
find_last-append_layers name a b c d e = simp (find_last-append, or_else_assoc)

pub or_else-none : (a : Option PgConfig) → or_else a none ≡ a
or_else-none none = refl
or_else-none (some a) = refl

get_nil : (name : String) → BTreeMap.get {V = PgConfig} name [] ≡ none
unfolding BTreeMap.get
get_nil name = refl

module _ (stack runtime merged overrides : List PgConfig) where
  pub assemble-IsKeyed : IsKeyed (assemble stack runtime merged overrides)
  unfolding assemble
  assemble-IsKeyed = remove_all-IsKeyed disallowed_configs _ (
      insert_all-IsKeyed overrides _ (
        insert_all-IsKeyed merged _ (
          insert_all-IsKeyed runtime _
            (insert_all-IsKeyed stack _ (insert_all-IsKeyed default_settings [] tt)))))

  pub assemble-IsOrdered : IsOrdered (assemble stack runtime merged overrides)
  unfolding assemble
  assemble-IsOrdered = remove_all-IsOrdered disallowed_configs _ (
      insert_all-IsOrdered overrides _ (
        insert_all-IsOrdered merged _ (
          insert_all-IsOrdered runtime _
            (insert_all-IsOrdered stack _ (insert_all-IsOrdered default_settings [] tt)))))

  abbrev pub layers : List PgConfig
  layers = default_settings ++ (stack ++ (runtime ++ (merged ++ overrides)))

  get-assemble :
      (name : String)
      → BTreeMap.get name (assemble stack runtime merged overrides)
        ≡ (if list_contains disallowed_configs name then none else find_last name layers)
  unfolding assemble
  get-assemble name =
      rw
        (
          get-remove_all,
          get-insert_all name overrides,
          get-insert_all name merged,
          get-insert_all name runtime,
          get-insert_all name stack,
          get-insert_all name default_settings,
        )
        (rw (
          get_nil,
          or_else-none,
          find_last-append_layers name default_settings stack runtime merged overrides,
        ))

  -- The value of a name is the one that the last layer with the name gives it; a name that is not
  -- allowed has none.
  pub find_config-assemble :
      (name : String)
      → find_config name (BTreeMap.values (assemble stack runtime merged overrides))
        ≡ (if list_contains disallowed_configs name then none else find_last name layers)
  find_config-assemble name = find_config-values name _ assemble-IsKeyed ∙ get-assemble name
