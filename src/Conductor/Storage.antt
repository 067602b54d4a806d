-- ===== src/Conductor/Storage.antt =====
-- What the conductor adds to the specification of an instance, and what it leaves
-- (conductor/src/main.rs).
use tembo.Prelude.{
  String, ◌≡◌, refl, ◌∙◌, sym, inl, inr, true, Option, none, some, List, [], ◌∷◌, ◌++◌, any,
  any-append, find, ◌==◌, eq_iff, Bool-cases, unwrap_or, arith, if◌then◌else◌,
}
use tembo.Prelude.Result.{ok, err}
use tembo.Operator.Params.Value.{PgConfig, single, find_config}
use tembo.Operator.Types.{CoreDbSpec}
use tembo.Conductor.Types.{Config, Message}
use tembo.Conductor.Round.{World, Answer, done, catch}
use tembo.Prelude.Text.{concat}
use tembo.Conductor.Cloud.{
  versioned_path, storage_name, include_path, include_storage_configuration, init_cloud_perms,
  init_gcp_storage_workload_identity, init_azure_storage_workload_identity,
}
use tembo.Conductor.Events.{prepare_spec, after_cloud_perms, requeue_short}
use tembo.Conductor.Lacks.{Ends, Ends-seq, done-injective}

abbrev pub runtime_of : CoreDbSpec → List PgConfig
runtime_of spec = unwrap_or [] spec.runtime_config

abbrev or_this : Option PgConfig → Option PgConfig → Option PgConfig
or_this (some c) other = some c
or_this none other = other

-- The storage configuration, where the message has a path to write to.
abbrev pub storage_of : String → Option String → List PgConfig
storage_of bucket none = []
storage_of bucket (some path) =
    record { name = storage_name; value = single (concat (bucket ∷ "/" ∷ path ∷ [])) } ∷ []

find-append :
    (name : String) (xs ys : List PgConfig)
    → find_config name (xs ++ ys) ≡ or_this (find_config name xs) (find_config name ys)
unfolding find_config find
find-append name [] ys = refl
find-append name (x ∷ xs) ys = let ih = find-append name xs ys in ground (arith, ih)

or_this-none : (o : Option PgConfig) → or_this o none ≡ o
or_this-none none = refl
or_this-none (some c) = refl

-- One that is there stays, whatever comes after it.
kept :
    (name : String) (d : PgConfig) (xs : List PgConfig)
    → any (λ c. c.name == d.name) xs ≡ true
    → or_this (find_config name xs) (find_config name (d ∷ [])) ≡ find_config name xs
unfolding find_config find
kept name d [] h = cc
kept name d (x ∷ xs) h =
    let ih = kept name d xs in
    ground (arith, ih, eq_iff x.name d.name, eq_iff d.name name, eq_iff x.name name)

-- The storage configuration is found where no other of its name was, and every other
-- configuration as before: one that is there is never replaced.
pub include_storage_configuration-find :
    (bucket : String) (read_msg : Message) (spec : CoreDbSpec) (name : String)
    → find_config name (runtime_of (include_storage_configuration bucket read_msg spec))
      ≡ or_this
          (find_config name (runtime_of spec))
          (find_config name (storage_of bucket read_msg.message.backups_write_path))
unfolding include_storage_configuration
include_storage_configuration-find bucket read_msg spec name =
    go read_msg.message.backups_write_path
  where
    go :
        (path : Option String)
        → find_config name (runtime_of (include_path bucket path spec))
          ≡ or_this (find_config name (runtime_of spec)) (find_config name (storage_of bucket path))
    go none = unfold find_config find in sym (or_this-none _)
    go (some path) = elim (Bool-cases (any (λ c. c.name == storage_name) (runtime_of spec))) [
      | inl h ↦ rw h (sym (kept name _ (runtime_of spec) h))
      | inr h ↦ rw h (find-append name (runtime_of spec) _)
    ]

-- To include the storage configuration twice is to include it once.
pub include_storage_configuration_idem :
    (bucket : String) (read_msg : Message) (spec : CoreDbSpec)
    → include_storage_configuration bucket read_msg
        (include_storage_configuration bucket read_msg spec)
      ≡ include_storage_configuration bucket read_msg spec
unfolding include_storage_configuration
include_storage_configuration_idem bucket read_msg spec = go read_msg.message.backups_write_path
  where
    go :
        (path : Option String)
        → include_path bucket path (include_path bucket path spec) ≡ include_path bucket path spec
    go none = refl
    go (some path) = elim (Bool-cases (any (λ c. c.name == storage_name) (runtime_of spec))) [
      | inl h ↦ rw (h, h) refl
      | inr h ↦
          let p = λ (c : PgConfig). c.name == storage_name in
          rw (h, any-append p (runtime_of spec) (storage_of bucket (some path)), h) refl
    ]

-- Where the backups of an instance go: the last of the clouds that are switched on decides, and
-- without one the specification's own destination stays.
abbrev pub destination : Config → Message → CoreDbSpec → Option String
destination config read_msg spec =
    if config.is_azure
    then some (
        concat (
          "https://"
          ∷ config.azure_storage_account
          ∷ ".blob.core.windows.net/"
          ∷ config.backup_archive_bucket
          ∷ "/"
          ∷ unwrap_or "v2" read_msg.message.backups_write_path
          ∷ []))
    else if config.is_gcp
    then some (concat ("gs://" ∷ config.backup_archive_bucket ∷ "/" ∷ versioned_path read_msg ∷ []))
    else if config.is_cloud_formation
    then some (concat ("s3://" ∷ config.backup_archive_bucket ∷ "/" ∷ versioned_path read_msg ∷ []))
    else spec.backup.destination_path

-- What the clouds leave of a specification.
abbrev pub IsKept : CoreDbSpec → CoreDbSpec → Type 0
IsKept spec prepared =
    (prepared.extensions ≡ spec.extensions)
    × (prepared.trunk_installs ≡ spec.trunk_installs)
    × (prepared.stop ≡ spec.stop)
    × (prepared.stack ≡ spec.stack)
    × (prepared.runtime_config ≡ spec.runtime_config)
    × (prepared.override_configs ≡ spec.override_configs)

abbrev HasPath : Option String → CoreDbSpec → CoreDbSpec → Type 0
HasPath path spec prepared = (prepared.backup.destination_path ≡ path) × IsKept spec prepared

abbrev HasPathOk : Option String → CoreDbSpec → Answer CoreDbSpec → Type 0
HasPathOk path spec (ok prepared) = HasPath path spec prepared
HasPathOk path spec (err e) = Unit

module _ (world : World) (config : Config) (read_msg : Message) where
  aws-Ends :
      (spec : CoreDbSpec)
      → Ends
          (HasPathOk
            (if config.is_cloud_formation
              then some (
                  concat
                    ("s3://" ∷ config.backup_archive_bucket ∷ "/" ∷ versioned_path read_msg ∷ []))
              else spec.backup.destination_path)
            spec)
          (catch (init_cloud_perms world config read_msg spec))
  unfolding init_cloud_perms
  aws-Ends spec x h = ground arith

  gcp-Ends :
      (spec : CoreDbSpec)
      → Ends
          (HasPath
            (if config.is_gcp
              then some (
                  concat
                    ("gs://" ∷ config.backup_archive_bucket ∷ "/" ∷ versioned_path read_msg ∷ []))
              else spec.backup.destination_path)
            spec)
          (init_gcp_storage_workload_identity world config read_msg spec)
  unfolding init_gcp_storage_workload_identity
  gcp-Ends spec x h = ground arith

  azure-Ends :
      (spec : CoreDbSpec)
      → Ends
          (HasPath
            (if config.is_azure
              then some (
                  concat (
                    "https://"
                    ∷ config.azure_storage_account
                    ∷ ".blob.core.windows.net/"
                    ∷ config.backup_archive_bucket
                    ∷ "/"
                    ∷ unwrap_or "v2" read_msg.message.backups_write_path
                    ∷ []))
              else spec.backup.destination_path)
            spec)
          (init_azure_storage_workload_identity world config read_msg spec)
  unfolding init_azure_storage_workload_identity
  azure-Ends spec x h = ground arith

  after-Ends :
      (path : Option String) (spec : CoreDbSpec) (a : Answer CoreDbSpec)
      → HasPathOk path spec a
      → Ends (HasPath path spec) (after_cloud_perms world read_msg a)
  unfolding requeue_short
  after-Ends path spec (ok y) s x h = rw (← done-injective h) s
  after-Ends path spec (err e) s x h = ground arith

  IsKept-trans : (a b c : CoreDbSpec) → IsKept a b → IsKept b c → IsKept a c
  IsKept-trans a b c (p, q, r, s, t, u) (p', q', r', s', t', u') =
      (p' ∙ p, q' ∙ q, r' ∙ r, s' ∙ s, t' ∙ t, u' ∙ u)

  -- The clouds set the destination of the backups, and leave the extensions, the stack and the
  -- configurations of the specification as they are.
  pub prepare_spec-Ends :
      (spec prepared : CoreDbSpec)
      → (prepare_spec world config read_msg spec).1 ≡ done prepared
      → (prepared.backup.destination_path ≡ destination config read_msg spec) × IsKept spec prepared
  unfolding prepare_spec
  prepare_spec-Ends spec =
      let P = HasPath (destination config read_msg spec) spec in
      Ends-seq _ P (catch (init_cloud_perms world config read_msg spec)) _ (aws-Ends spec)
        (λ perms s.
          Ends-seq _ P (after_cloud_perms world read_msg perms) _ (after-Ends _ spec perms s)
            (λ x (d, k).
              Ends-seq _ P (init_gcp_storage_workload_identity world config read_msg x) _
                (gcp-Ends x)
                (λ y (d', k') z h.
                  let (d'', k'') = azure-Ends y z h in
                  (d'' ∙ rw (d', d) refl, IsKept-trans spec y z (IsKept-trans spec x y k k') k''))))
