-- ===== src/Operator/Extensions/Toggle/Covered.antt =====
-- Every enabled location of the spec has a status (tembo-operator/src/extensions/toggle.rs).
use tembo.Prelude.{
  String, ◌≡◌, true, List, [], ◌∷◌, map, arith, ◌==◌, is_some, In, inl, inr, dedup_by,
  find-dedup_by, eq_iff, eq_refl,
}
use tembo.Prelude.Sort
use tembo.Operator.Types.{Extension, ExtensionInstallLocation, ExtensionStatus, CoreDb}
use tembo.Operator.Extensions.Status.{status_lookup, locations_of, name_le}
use tembo.Operator.Extensions.Merge.{status_lookup-merge, locations_of-sort_by}
use tembo.Operator.Extensions.Toggle.{
  add_unavailable, add_locations, add_extensions, same_name, updated_extension, unavailable,
  determine_updated_extensions_status,
}

abbrev pub Covers : List ExtensionStatus → String → String → Type 0
Covers es name database = is_some (status_lookup name database es) ≡ true

module _ (updated : List ExtensionStatus) where
  add_unavailable_keeps :
      (name : String) (l : ExtensionInstallLocation) (es : List ExtensionStatus) (n d : String)
      → Covers es n d
      → Covers (add_unavailable updated name l es) n d
  unfolding add_unavailable
  add_unavailable_keeps name l es n d h =
      ground (arith, status_lookup-merge name (unavailable l) n d es)

  add_locations_keeps :
      (name : String) (ls : List ExtensionInstallLocation) (es : List ExtensionStatus)
      (n d : String)
      → Covers es n d
      → Covers (add_locations updated name ls es) n d
  unfolding add_locations
  add_locations_keeps name [] es n d h = h
  add_locations_keeps name (l ∷ ls) es n d h =
      add_locations_keeps name ls (add_unavailable updated name l es) n d
        (add_unavailable_keeps name l es n d h)

  add_extensions_keeps :
      (exts : List Extension) (es : List ExtensionStatus) (n d : String)
      → Covers es n d
      → Covers (add_extensions updated exts es) n d
  unfolding add_extensions
  add_extensions_keeps [] es n d h = h
  add_extensions_keeps (e ∷ exts) es n d h =
      add_extensions_keeps exts (add_locations updated e.name e.locations es) n d
        (add_locations_keeps e.name e.locations es n d h)

  add_unavailable-Covers :
      (name : String) (l : ExtensionInstallLocation) (es : List ExtensionStatus)
      → ((n d : String) → Covers updated n d → Covers es n d)
      → l.enabled ≡ true
      → Covers (add_unavailable updated name l es) name l.database
  unfolding add_unavailable
  add_unavailable-Covers name l es within on = ground (
    arith,
    within name l.database,
    status_lookup-merge name (unavailable l) name l.database es,
    eq_refl name,
    eq_refl l.database,
  )

  add_locations-Covers :
      (name : String) (ls : List ExtensionInstallLocation) (es : List ExtensionStatus)
      (l : ExtensionInstallLocation)
      → ((n d : String) → Covers updated n d → Covers es n d)
      → In l ls
      → l.enabled ≡ true
      → Covers (add_locations updated name ls es) name l.database
  unfolding add_locations
  add_locations-Covers name [] es l within m on = absurd m
  add_locations-Covers name (k ∷ ls) es l within (inl same) on =
      add_locations_keeps name ls (add_unavailable updated name k es) name l.database
        (rw (← same) (add_unavailable-Covers name l es within on))
  add_locations-Covers name (k ∷ ls) es l within (inr m) on =
      add_locations-Covers name ls (add_unavailable updated name k es) l
        (λ n d c. add_unavailable_keeps name k es n d (within n d c)) m on

  add_extensions-Covers :
      (exts : List Extension) (es : List ExtensionStatus) (e : Extension)
      (l : ExtensionInstallLocation)
      → ((n d : String) → Covers updated n d → Covers es n d)
      → In e exts
      → In l e.locations
      → l.enabled ≡ true
      → Covers (add_extensions updated exts es) e.name l.database
  unfolding add_extensions
  add_extensions-Covers [] es e l within m k on = absurd m
  add_extensions-Covers (x ∷ exts) es e l within (inl same) k on =
      add_extensions_keeps exts (add_locations updated x.name x.locations es) e.name l.database
        (rw (← same) (add_locations-Covers e.name e.locations es l within k on))
  add_extensions-Covers (x ∷ exts) es e l within (inr m) k on =
      add_extensions-Covers exts (add_locations updated x.name x.locations es) e l
        (λ n d c. add_locations_keeps x.name x.locations es n d (within n d c)) m k on

locations_of-dedup_by :
    (n : String) (es : List ExtensionStatus)
    → locations_of n (dedup_by same_name es) ≡ locations_of n es
unfolding locations_of
locations_of-dedup_by n es =
    find-dedup_by (λ e. e.name == n) same_name (λ x k h. rw ((eq_iff x.name k.name).0 h)) es

status_lookup-tidy :
    (n d : String) (es : List ExtensionStatus)
    → status_lookup n d (Sort.sort_by name_le (dedup_by same_name es)) ≡ status_lookup n d es
unfolding status_lookup
status_lookup-tidy n d es =
    rw (locations_of-sort_by n (dedup_by same_name es), locations_of-dedup_by n es, status_lookup)

-- Every enabled location of the spec has a status in what `determine_updated_extensions_status`
-- answers, whatever is installed.
pub determine_updated_extensions_status-Covers :
    (cdb : CoreDb) (actual : List ExtensionStatus) (e : Extension) (l : ExtensionInstallLocation)
    → In e cdb.spec.extensions
    → In l e.locations
    → l.enabled ≡ true
    → Covers (determine_updated_extensions_status cdb actual) e.name l.database
unfolding determine_updated_extensions_status
determine_updated_extensions_status-Covers cdb actual e l m k on =
    let updates = map (updated_extension cdb) actual in
    rw status_lookup-tidy
      (add_extensions-Covers updates cdb.spec.extensions updates e l (λ n d c. c) m k on)
