-- ===== src/Conductor/Library/Paths.antt =====
-- Where an instance is restored from, and the identifiers that its resource carries
-- (conductor/src/lib.rs).
use Prim.Native.String
use text.Mathlib.TextLemmas.{nil-append, cons-append}
use tembo.Prelude.{
  String, ◌≡◌, refl, ap, ◌≢◌, inl, inr, true, Option, none, some, List, [], ◌∷◌, ◌∙◌, Bool-cases,
  Option-cases, if◌then◌else◌,
}
use tembo.Prelude.Text.{strip_prefix, starts_with}
use tembo.Prelude.Text.Prefix.{strip_prefix-append, strip_prefix-append_both}
use tembo.Prelude.Result.{ok}
use tembo.Prelude.BTreeMap.{get}
use tembo.Operator.Types.{CoreDb, CoreDbSpec}
use tembo.Operator.Types.Backups.{Restore}
use tembo.Conductor.Types.{CloudProvider, aws, azure, gcp, unknown}
use tembo.Conductor.Library.{
  Deployment, prefix, storage_account_url, in_bucket, remove_known_prefixes, restored_path,
  without_prefixes, restored_paths, restore_for, generate_spec, get_org_inst_id,
  get_data_plane_id_from_coredb,
}

-- Once in the bucket, a path stays as it is.
in_bucket_idem :
    (bucket path : String) → in_bucket bucket (in_bucket bucket path) ≡ in_bucket bucket path
in_bucket_idem bucket path = elim (Bool-cases (starts_with bucket path)) [
  | inl e ↦ rw (e, if◌then◌else◌) (rw e refl)
  | inr e ↦ rw (e, if◌then◌else◌) (rw (strip_prefix-append bucket (String.◌++◌ "/" path)) refl)
]

-- The bucket stands at the head of a path that was put into it.
starts_with-in_bucket : (bucket path : String) → starts_with bucket (in_bucket bucket path) ≡ true
starts_with-in_bucket bucket path = elim (Bool-cases (starts_with bucket path)) [
  | inl e ↦ rw (e, if◌then◌else◌) e
  | inr e ↦ rw (e, if◌then◌else◌) (rw (strip_prefix-append bucket (String.◌++◌ "/" path)) refl)
]

without_prefixes-first :
    (known path : String) (more : List String)
    → without_prefixes (known ∷ more) (String.◌++◌ known path) ≡ path
unfolding without_prefixes
without_prefixes-first known path more = rw (strip_prefix-append known path, without_prefixes) refl

s3-other : (path : String) → strip_prefix "s3://" (String.◌++◌ "gs://" path) ≡ none
unfolding strip_prefix
s3-other path = rw cons-append refl

-- The prefix of a cloud that has no account in its paths is removed.
remove-prefix :
    (provider : CloudProvider) (path : String)
    → provider ≢ azure
    → provider ≢ unknown
    → remove_known_prefixes (String.◌++◌ (prefix provider) path) ≡ path
unfolding remove_known_prefixes
remove-prefix aws path h k = without_prefixes-first "s3://" path ("gs://" ∷ "https://" ∷ [])
remove-prefix gcp path h k =
    rw (s3-other path, without_prefixes) (without_prefixes-first "gs://" path ("https://" ∷ []))
remove-prefix azure path h k = absurd (h refl)
remove-prefix unknown path h k = absurd (k refl)

restored_path_idem :
    (provider : CloudProvider) (account : Option String) (bucket path : String)
    → provider ≢ azure
    → provider ≢ unknown
    → storage_account_url provider account ≡ ""
    → restored_path provider account bucket (restored_path provider account bucket path)
      ≡ restored_path provider account bucket path
unfolding restored_path
restored_path_idem provider account bucket path h k e =
    let whole : String → String =
      λ x. String.◌++◌ (prefix provider) (String.◌++◌ (storage_account_url provider account) x) in
    ap (λ x. whole (in_bucket bucket x))
      (remove-prefix provider _ h k
        ∙ ap (λ url. String.◌++◌ url (in_bucket bucket (remove_known_prefixes path))) e
        ∙ nil-append (in_bucket bucket (remove_known_prefixes path)))
    ∙ ap whole (in_bucket_idem bucket (remove_known_prefixes path))

restored_paths_idem :
    (provider : CloudProvider) (account : Option String) (bucket : String) (restore : Restore)
    → provider ≢ azure
    → provider ≢ unknown
    → storage_account_url provider account ≡ ""
    → restored_paths provider account bucket (restored_paths provider account bucket restore)
      ≡ restored_paths provider account bucket restore
restored_paths_idem provider account bucket restore h k e =
    elim (Option-cases restore.backups_path) [
      | inl none_given ↦ rw none_given refl
      | inr (path, given) ↦ rw given (
          ap (λ p. record restore { backups_path = some p })
            (restored_path_idem provider account bucket path h k e))
    ]

restore_for_idem :
    (provider : CloudProvider) (account : Option String) (bucket : String)
    (restore : Option Restore)
    → provider ≢ azure
    → restore_for provider account bucket (restore_for provider account bucket restore)
      ≡ restore_for provider account bucket restore
restore_for_idem azure account bucket restore h = absurd (h refl)
restore_for_idem unknown account bucket restore h = refl
restore_for_idem aws account bucket none h = refl
restore_for_idem aws account bucket (some r) h =
    ap some (restored_paths_idem aws account bucket r (cc) (cc) refl)
restore_for_idem gcp account bucket none h = refl
restore_for_idem gcp account bucket (some r) h =
    ap some (restored_paths_idem gcp account bucket r (cc) (cc) refl)

-- Whatever the path was, an instance is restored from a path that starts with the prefix of the
-- cloud, the address of the storage account, which only Azure has, and the bucket of the backups.
pub restored_path-starts_with :
    (provider : CloudProvider) (account : Option String) (bucket path : String)
    → starts_with
        (String.◌++◌ (prefix provider) (String.◌++◌ (storage_account_url provider account) bucket))
        (restored_path provider account bucket path)
      ≡ true
unfolding restored_path
restored_path-starts_with provider account bucket path =
    rw (strip_prefix-append_both (prefix provider)) (
      rw (strip_prefix-append_both (storage_account_url provider account))
        (starts_with-in_bucket bucket (remove_known_prefixes path)))

module _ (org_id entity_name instance_id data_plane_id namespace bucket : String)
    (account : Option String) where
  generated : CoreDbSpec → CloudProvider → Deployment
  generated = generate_spec org_id entity_name instance_id data_plane_id namespace bucket account

  -- Except on Azure, a specification that `generate_spec` answered is one that it leaves as it is:
  -- the path to restore from gets its prefix and its bucket once.
  pub generate_spec_idem :
      (spec : CoreDbSpec) (provider : CloudProvider)
      → provider ≢ azure
      → generate_spec org_id entity_name instance_id data_plane_id namespace bucket account
          (generate_spec org_id entity_name instance_id data_plane_id namespace bucket account spec
            provider).spec
          provider
        ≡ generate_spec org_id entity_name instance_id data_plane_id namespace bucket account spec
            provider
  unfolding generate_spec generated
  generate_spec_idem spec provider h =
      ap
        (λ (r : Option Restore). record (generated spec provider) {
          spec = record spec { restore = r };
        })
        (restore_for_idem provider account bucket spec.restore h)

  -- The identifiers that are given to `generate_spec` are read from a resource with the annotations
  -- that it writes.
  pub get_org_inst_id-generate_spec :
      (spec : CoreDbSpec) (provider : CloudProvider) (coredb : CoreDb)
      → coredb.annotations
        ≡ some
            (generate_spec org_id entity_name instance_id data_plane_id namespace bucket account
              spec provider).annotations
      → (get_org_inst_id coredb ≡ ok (record { org_id = org_id; inst_id = instance_id }))
        × (get_data_plane_id_from_coredb coredb ≡ ok data_plane_id)
  unfolding get_org_inst_id get_data_plane_id_from_coredb generate_spec get
  get_org_inst_id-generate_spec spec provider coredb h = rw h (refl, refl)
