-- ===== src/Operator/AppService/Secret.antt =====
-- The secret with the connections that the applications use (`prepare_apps_connection_secret` of
-- tembo-operator/src/app_service/manager.rs, `fetch_all_decoded_data_from_secret` of
-- tembo-operator/src/secret.rs).
pub mod Kept
use Prim.Native.String
use tembo.Prelude.{String, Bool, ◌||◌, Option, none, some, [], ◌∷◌, ◌==◌, if◌then◌else◌}
use tembo.Prelude.Result
use tembo.Prelude.Result.{Result, ok, err, ok_or}
use tembo.Prelude.Trace.{Trace, call, lift, ◌>>=◌}
use tembo.Prelude.BTreeMap
use tembo.Prelude.BTreeMap.{BTreeMap}
use tembo.Operator.Types.{CoreDb}
use tembo.Operator.Api.{KubeError}
use tembo.Operator.AppService.Calls.{Call, World, patch_secret, read_secret}

pub data SecretError : Type 0 where
  kube : KubeError → SecretError
  missing_secret : (key : Option String) → SecretError
  -- A panic of `unwrap`.
  unwrapped : SecretError

abbrev pub insert_into :
    String → String → Result SecretError (BTreeMap String) → Result SecretError (BTreeMap String)
insert_into key value (err problem) = err problem
insert_into key value (ok m) = ok (BTreeMap.insert key value m)

-- The entries come in the order of their keys, and are inserted in it.
unfoldable pub decoded : BTreeMap (Option String) → Result SecretError (BTreeMap String)
decoded [] = ok []
decoded ((key, none) ∷ m) = err (missing_secret (some key))
decoded ((key, some value) ∷ m) = insert_into key value (decoded m)

abbrev pub data_of :
    Result KubeError (Option (BTreeMap (Option String))) → Result SecretError (BTreeMap String)
data_of (err problem) = err (kube problem)
data_of (ok none) = err (missing_secret none)
data_of (ok (some m)) = decoded m

abbrev pub fetch_all_decoded_data_from_secret :
    World → String → Result SecretError (BTreeMap String)
fetch_all_decoded_data_from_secret world name = data_of (world.get_secret name)

abbrev pub is_uri : String → Bool
is_uri key = key == "r_uri" || (key == "ro_uri" || key == "rw_uri")

abbrev pub for_apps : String → String
for_apps value = String.◌++◌ value "?application_name=tembo-apps"

unfoldable pub insert_uris : BTreeMap String → BTreeMap String → BTreeMap String
insert_uris [] m = m
insert_uris ((key, value) ∷ original) m =
    insert_uris original (if is_uri key then BTreeMap.insert key (for_apps value) m else m)

unfoldable pub new_secret_data : BTreeMap String → BTreeMap String
new_secret_data original = insert_uris original []

abbrev pub or_kube : Result KubeError (Unit {0}) → Result SecretError (Unit {0})
or_kube (err problem) = err (kube problem)
or_kube (ok _) = ok tt

unfoldable pub prepare_apps_connection_secret : World → CoreDb → Trace Call SecretError (Unit {0})
prepare_apps_connection_secret world cdb = do
  namespace ← lift (ok_or unwrapped cdb.namespace)
  cdb_name ← lift (ok_or unwrapped cdb.name)
  let secret_name = String.◌++◌ cdb_name "-connection"
  original ← call (read_secret secret_name) (fetch_all_decoded_data_from_secret world secret_name)
  let asked = patch_secret (String.◌++◌ cdb_name "-apps") (new_secret_data original)
  call asked (or_kube (world.answer asked))
