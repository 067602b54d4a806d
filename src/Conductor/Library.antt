-- ===== src/Conductor/Library.antt =====
-- The specification that the conductor makes of an event, and its calls of the cluster
-- (conductor/src/lib.rs and cloud.rs). A secret's values are their base64 texts, which the
-- detour through JSON gives back.
pub mod Instance
pub mod Paths
pub mod Cron
mod Tests
use Prim.Native.String
use tembo.Prelude.{
  ℕ, String, Bool, true, false, not, ◌%◌, Option, none, some, List, [], ◌∷◌, ◌==◌, is_none,
  unwrap_or, if◌then◌else◌,
}
use tembo.Prelude.Text.{strip_prefix, starts_with}
use tembo.Prelude.Int.{show}
use tembo.Prelude.Result
use tembo.Prelude.Result.{Result, ok, err, ok_or}
use tembo.Prelude.Trace.{Trace, pure, call, lift, tell, ◌>>=◌, ◌>>◌}
use tembo.Prelude.BTreeMap.{BTreeMap, get}
use tembo.Operator.Types.{CoreDb, CoreDbSpec}
use tembo.Operator.Types.Backups.{Restore}
use tembo.Conductor.Types.{
  CloudProvider, aws, azure, gcp, unknown, ConductorError, kube_error, event_id_format,
  no_status_reported, postgres_connection_info_not_found, secret_data_not_found, ConnectionInfo,
}
use tembo.Prelude.Text.{concat}

abbrev pub prefix : CloudProvider → String
prefix aws = "s3://"
prefix azure = "https://"
prefix gcp = "gs://"
prefix unknown = ""

abbrev pub storage_account_url : CloudProvider → Option String → String
storage_account_url azure account = String.◌++◌ (unwrap_or "" account) ".blob.core.windows.net/"
storage_account_url _ account = ""

-- The loop over the known prefixes, of which the first that fits is removed.
unfoldable pub without_prefixes : List String → String → String
without_prefixes [] path = path
without_prefixes (known ∷ more) path = elim (strip_prefix known path) [
  | some stripped ↦ stripped
  | none ↦ without_prefixes more path
]

abbrev pub known_prefixes : List String
known_prefixes = "s3://" ∷ "gs://" ∷ "https://" ∷ []

unfoldable pub remove_known_prefixes : String → String
unfolding without_prefixes
remove_known_prefixes path = without_prefixes known_prefixes path

-- A path without a prefix, with the bucket before it if it does not start with it.
abbrev pub in_bucket : String → String → String
in_bucket bucket clean_path =
    if starts_with bucket clean_path
    then clean_path
    else String.◌++◌ bucket (String.◌++◌ "/" clean_path)

unfoldable pub restored_path : CloudProvider → Option String → String → String → String
unfolding remove_known_prefixes strip_prefix
restored_path provider account bucket path = String.◌++◌ (prefix provider) (
    String.◌++◌ (storage_account_url provider account)
      (in_bucket bucket (remove_known_prefixes path)))

abbrev pub restored_paths : CloudProvider → Option String → String → Restore → Restore
restored_paths provider account bucket restore = elim restore.backups_path [
  | none ↦ restore
  | some path ↦ record restore { backups_path = some (restored_path provider account bucket path) }
]

abbrev pub map_restore : (Restore → Restore) → Option Restore → Option Restore
map_restore f none = none
map_restore f (some restore) = some (f restore)

abbrev pub restore_for : CloudProvider → Option String → String → Option Restore → Option Restore
restore_for unknown account bucket restore = none
restore_for aws account bucket restore = map_restore (restored_paths aws account bucket) restore
restore_for gcp account bucket restore = map_restore (restored_paths gcp account bucket) restore
restore_for azure account bucket restore = map_restore (restored_paths azure account bucket) restore

-- The JSON object that `generate_spec` answers, without its constant fields.
pub record Deployment : Type 0 where
  pub name : String
  pub annotations : BTreeMap String
  pub spec : CoreDbSpec

unfoldable pub generate_spec :
    (org_id entity_name instance_id data_plane_id namespace backups_bucket : String)
    → Option String
    → CoreDbSpec
    → CloudProvider
    → Deployment
unfolding restored_path
generate_spec org_id entity_name instance_id data_plane_id namespace bucket account spec provider =
    record {
      name = namespace;
      annotations =
          ("tembo.io/data_plane_id", data_plane_id)
          ∷ ("tembo.io/entity_name", entity_name)
          ∷ ("tembo.io/instance_id", instance_id)
          ∷ ("tembo.io/org_id", org_id)
          ∷ [];
      spec = record spec { restore = restore_for provider account bucket spec.restore };
    }

abbrev pub annotations_of : CoreDb → Result ConductorError (BTreeMap String)
annotations_of coredb = ok_or event_id_format coredb.annotations

unfoldable pub get_data_plane_id_from_coredb : CoreDb → Result ConductorError String
get_data_plane_id_from_coredb coredb =
    Result.◌>>=◌ (annotations_of coredb)
      (λ annotations. ok_or event_id_format (get "tembo.io/data_plane_id" annotations))

pub record OrgInstId : Type 0 where
  pub org_id : String
  pub inst_id : String

unfoldable pub get_org_inst_id : CoreDb → Result ConductorError OrgInstId
get_org_inst_id coredb = Result.◌>>=◌ (annotations_of coredb) (λ annotations.
    Result.◌>>=◌ (ok_or event_id_format (get "tembo.io/org_id" annotations)) (λ org_id.
      Result.◌>>=◌ (ok_or event_id_format (get "tembo.io/instance_id" annotations))
        (λ inst_id. ok (record { org_id = org_id; inst_id = inst_id }))))

-- The calls of the cluster that change something.
pub data Call : Type 0 where
  patch_coredb : (namespace name : String) → Deployment → Call
  patch_restarted_at : (namespace name restart : String) → Call
  delete_coredb : (namespace name : String) → Call
  patch_namespace : (name : String) → BTreeMap String → Call
  delete_namespace : (name : String) → Call

-- `to_rfc3339` prints a time in whole seconds.
pub record Cluster : Type 0 where
  pub answer : Call → Result String (Unit {0})
  pub get_coredb : String → String → Result String CoreDb
  pub list_namespaces : String → Result String (List String)
  pub get_secret : String → String → Result String (Option (Option (BTreeMap String)))
  pub to_rfc3339 : ℕ → String

abbrev pub kube {a} : {A : Type a} → Result String A → Result ConductorError A
kube (ok x) = ok x
kube (err message) = err (kube_error message)

abbrev pub ask : Cluster → Call → Trace Call ConductorError (Unit {0})
ask cluster asked = call asked (kube (cluster.answer asked))

unfoldable pub get_one : Cluster → String → Result ConductorError CoreDb
get_one cluster namespace = kube (cluster.get_coredb namespace namespace)

-- An instance without a status is an error.
unfoldable pub get_coredb_error_without_status : Cluster → String → Result ConductorError CoreDb
unfolding get_one
get_coredb_error_without_status cluster namespace =
    Result.◌>>=◌ (get_one cluster namespace)
      (λ (coredb : CoreDb). if is_none coredb.status then err no_status_reported else ok coredb)

unfoldable pub create_or_update :
    Cluster → String → Deployment → Trace Call ConductorError (Unit {0})
create_or_update cluster namespace deployment =
    ask cluster (patch_coredb namespace deployment.name deployment)

-- The answer is dropped, here and below.
unfoldable pub delete : String → String → Trace Call ConductorError (Unit {0})
delete namespace name = tell (delete_coredb namespace name)

abbrev pub namespace_labels : String → String → BTreeMap String
namespace_labels organization_id instance_id =
    ("tembo-pod-init.tembo.io/watch", "true")
    ∷ ("tembo.io/instance_id", instance_id)
    ∷ ("tembo.io/organization_id", organization_id)
    ∷ []

abbrev pub create_unless_listed :
    Cluster → String → BTreeMap String → List String → Trace Call ConductorError (Unit {0})
create_unless_listed cluster name labels [] = ask cluster (patch_namespace name labels)
create_unless_listed cluster name labels (_ ∷ _) = pure tt

unfoldable pub create_namespace :
    Cluster → String → String → String → Trace Call ConductorError (Unit {0})
create_namespace cluster name organization_id instance_id = do
  listed ← lift (kube (cluster.list_namespaces name))
  create_unless_listed cluster name (namespace_labels organization_id instance_id) listed

unfoldable pub remove_namespace : String → Trace Call ConductorError (Unit {0})
remove_namespace name = tell (delete_namespace name)
