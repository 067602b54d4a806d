-- ===== src/Operator/Extensions/Merge.antt =====
-- Setting a location in the status is an update of a finite map
-- (tembo-operator/src/extensions/kubernetes_queries.rs).
use tembo.Prelude.{
  String, ◌≡◌, ◌∙◌, refl, true, Option, none, some, List, [], ◌∷◌, ◌++◌, arith, ◌==◌, ◌&&◌,
  if◌then◌else◌, eq_iff, find, inl, inr, Option-cases, str_lt_irrefl, str_le,
}
use tembo.Prelude.Sort
use tembo.Prelude.Sort.{find-sort_by}
use tembo.Operator.Types.{ExtensionStatus, ExtensionInstallLocationStatus}
use tembo.Operator.Extensions.Status.{
  locations_of, at_database, status_lookup, replace_location, put_location, merge_existing,
  merge_location_status_into_extension_status_list, database_le, name_le,
}

str_le_of_eq : (a b c : String) → (a == c) ≡ true → (b == c) ≡ true → str_le a b ≡ true
str_le_of_eq a b c h k = ground (arith, eq_iff a c, eq_iff b c, str_lt_irrefl c)

module _ (new : ExtensionInstallLocationStatus) where
  abbrev or_pushed :
      List ExtensionInstallLocationStatus
      → Option (List ExtensionInstallLocationStatus)
      → List ExtensionInstallLocationStatus
  or_pushed ls none = ls ++ new ∷ []
  or_pushed ls (some replaced) = replaced

  at_database-replace_location :
      (database : String) (ls : List ExtensionInstallLocationStatus)
      → at_database database (or_pushed ls (replace_location new ls))
        ≡ (if new.database == database then some new else at_database database ls)
  unfolding replace_location at_database find
  at_database-replace_location database [] = refl
  at_database-replace_location database (l ∷ ls) = ground (
    arith,
    eq_iff l.database new.database,
    eq_iff l.database database,
    eq_iff new.database database,
    at_database-replace_location database ls,
  )

  at_database-sort_by :
      (database : String) (ls : List ExtensionInstallLocationStatus)
      → at_database database (Sort.sort_by database_le ls) ≡ at_database database ls
  unfolding at_database
  at_database-sort_by database ls =
      find-sort_by database_le (λ l. l.database == database)
        (λ a b h k. str_le_of_eq a.database b.database database h k) ls

  pub at_database-put_location :
      (database : String) (ls : List ExtensionInstallLocationStatus)
      → at_database database (put_location new ls)
        ≡ (if new.database == database then some new else at_database database ls)
  unfolding put_location
  at_database-put_location database ls = elim (Option-cases (replace_location new ls)) [
    | inl absent ↦
        rw (absent, put_location)
          (at_database-sort_by database (ls ++ new ∷ [])
            ∙ (rw absent at (at_database-replace_location database ls)))
    | inr (found, e) ↦ rw (e, put_location) (rw e at (at_database-replace_location database ls))
  ]

at_database-one :
    (new : ExtensionInstallLocationStatus) (database : String)
    → at_database database (new ∷ []) ≡ (if new.database == database then some new else none)
unfolding at_database find
at_database-one new database = refl

pub locations_of-sort_by :
    (n : String) (es : List ExtensionStatus)
    → locations_of n (Sort.sort_by name_le es) ≡ locations_of n es
unfolding locations_of
locations_of-sort_by n es =
    find-sort_by name_le (λ e. e.name == n) (λ a b h k. str_le_of_eq a.name b.name n h k) es

module _ (name : String) (new : ExtensionInstallLocationStatus) where
  abbrev fresh : ExtensionStatus
  fresh = record { name = name; description = none; locations = new ∷ [] }

  abbrev or_fresh : List ExtensionStatus → Option (List ExtensionStatus) → List ExtensionStatus
  or_fresh es none = es ++ fresh ∷ []
  or_fresh es (some merged) = merged

  abbrev updated : Option ExtensionStatus → ExtensionStatus
  updated none = fresh
  updated (some e) = record e { locations = put_location new e.locations }

  locations_of-merge_existing :
      (n : String) (es : List ExtensionStatus)
      → locations_of n (or_fresh es (merge_existing name new es))
        ≡ (if name == n then some (updated (locations_of n es)) else locations_of n es)
  unfolding merge_existing locations_of find
  locations_of-merge_existing n [] = refl
  locations_of-merge_existing n (e ∷ es) =
      ground (
        arith,
        eq_iff e.name name,
        eq_iff e.name n,
        eq_iff name n,
        locations_of-merge_existing n es,
      )

  locations_of-merge :
      (n : String) (es : List ExtensionStatus)
      → locations_of n (merge_location_status_into_extension_status_list name new es)
        ≡ (if name == n then some (updated (locations_of n es)) else locations_of n es)
  unfolding merge_location_status_into_extension_status_list
  locations_of-merge n es = elim (Option-cases (merge_existing name new es)) [
    | inl absent ↦
        rw (absent, merge_location_status_into_extension_status_list)
          (locations_of-sort_by n (es ++ fresh ∷ [])
            ∙ (rw absent at (locations_of-merge_existing n es)))
    | inr (found, e) ↦
        rw (e, merge_location_status_into_extension_status_list)
          (rw e at (locations_of-merge_existing n es))
  ]

  abbrev lookup_in : String → Option ExtensionStatus → Option ExtensionInstallLocationStatus
  lookup_in database none = none
  lookup_in database (some e) = at_database database e.locations

  lookup_in-updated :
      (n database : String) (o : Option ExtensionStatus)
      → lookup_in database (if name == n then some (updated o) else o)
        ≡ (if name == n && new.database == database then some new else lookup_in database o)
  lookup_in-updated n database none = ground (arith, at_database-one new database)
  lookup_in-updated n database (some e) =
      ground (arith, at_database-put_location new database e.locations)

  -- After the merge the database of the extension has the new status, and every other extension
  -- and database has the status that it had.
  pub status_lookup-merge :
      (n database : String) (es : List ExtensionStatus)
      → status_lookup n database (merge_location_status_into_extension_status_list name new es)
        ≡ (if name == n && new.database == database then some new else status_lookup n database es)
  unfolding status_lookup
  status_lookup-merge n database es =
      rw (locations_of-merge n es, status_lookup) (lookup_in-updated n database (locations_of n es))
