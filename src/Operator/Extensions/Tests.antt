-- ===== src/Operator/Extensions/Tests.antt =====
-- The theorems on extensions at concrete inputs (tembo-operator/src/extensions).
use tembo.Prelude.{
  String, ◌≡◌, ◌↔◌, refl, true, false, not, ◌&&◌, ◌||◌, Option, none, some, List, [], ◌∷◌, any,
  retain, ◌==◌, if◌then◌else◌, opt_eq,
}
use tembo.Operator.Types.{
  default_spec, Extension, ExtensionInstallLocation, ExtensionStatus,
  ExtensionInstallLocationStatus, TrunkInstallStatus, CoreDb, default_status,
}
use tembo.Operator.Extensions.Status.{
  status_lookup, get_location_status, merge_location_status_into_extension_status_list,
}
use tembo.Operator.Extensions.Merge.{status_lookup-merge}
use tembo.Operator.Extensions.Toggle.{determine_extension_locations_to_toggle, needs_toggle}
use tembo.Operator.Extensions.Toggle.Requests.{
  requests, chosen, IsPending, determine_extension_locations_to_toggle-requests,
}
use tembo.Operator.Extensions.Trunk.{update_trunk_installs}
use tembo.Operator.Extensions.Trunk.Installed.{is_of, is_on, update_trunk_installs-is_on}

abbrev there : ExtensionInstallLocationStatus
there = record {
  database = "app";
  schema = some "public";
  version = none;
  enabled = some false;
  error = some false;
  error_message = none;
}

abbrev wanted : ExtensionInstallLocation
wanted = record { enabled = true; database = "app"; version = none; schema = none }

abbrev vector : Extension
vector = record { name = "vector"; description = none; locations = wanted ∷ [] }

abbrev listed : List ExtensionStatus
listed = record { name = "vector"; description = none; locations = there ∷ [] } ∷ []

abbrev instance_1 : CoreDb
instance_1 = record {
  name = some "db";
  namespace = some "org";
  annotations = none;
  spec = record default_spec {
    extensions = vector ∷ [];
    trunk_installs = [];
    stop = false;
    stack = none;
    runtime_config = none;
    override_configs = none;
  };
  status = some (record default_status { extensions = some listed });
}

status_lookup-merge_example :
    status_lookup "vector" "app"
      (merge_location_status_into_extension_status_list "cron" there listed)
    ≡ (if "cron" == "vector" && there.database == "app"
        then some there
        else status_lookup "vector" "app" listed)
status_lookup-merge_example = status_lookup-merge "cron" there "vector" "app" listed

determine_extension_locations_to_toggle-requests_example :
    (requests (determine_extension_locations_to_toggle instance_1)
      ≡ retain (chosen instance_1) (requests instance_1.spec.extensions))
    × ((r : String × ExtensionInstallLocation)
        → (chosen instance_1 r ≡ true) ↔ IsPending instance_1 r)
determine_extension_locations_to_toggle-requests_example =
    determine_extension_locations_to_toggle-requests instance_1

toggle_test :
    requests (determine_extension_locations_to_toggle instance_1) ≡ ("vector", wanted) ∷ []
unfolding determine_extension_locations_to_toggle needs_toggle get_location_status
toggle_test = refl

abbrev at_version : Option String → Option (List String) → TrunkInstallStatus
at_version version pods = record {
  name = "pgmq";
  version = version;
  error = false;
  loading = false;
  error_message = none;
  installed_to_pods = pods;
}

update_trunk_installs-is_on_example :
    any (is_on "pgmq" (some "1") "b") (
      update_trunk_installs
        (at_version (some "1") (some ("a" ∷ [])) ∷ [])
        (at_version (some "1") (some ("b" ∷ []))))
    ≡ (any (is_on "pgmq" (some "1") "b") (at_version (some "1") (some ("a" ∷ [])) ∷ [])
        || (is_on "pgmq" (some "1") "b" (at_version (some "1") (some ("b" ∷ [])))
            && (any (is_of "pgmq" (some "1")) (at_version (some "1") (some ("a" ∷ [])) ∷ [])
                || not
                    (any (λ t. t.name == "pgmq") (at_version (some "1") (some ("a" ∷ [])) ∷ [])))))
update_trunk_installs-is_on_example =
    update_trunk_installs-is_on (at_version (some "1") (some ("a" ∷ [])) ∷ [])
      (at_version (some "1") (some ("b" ∷ []))) "pgmq" (some "1") "b"

other_version : any (is_of "pgmq" (some "2")) (at_version (some "1") (some ("a" ∷ [])) ∷ []) ≡ false
unfolding opt_eq
other_version = refl

not_on : any (is_on "pgmq" (some "2") "a") (at_version (some "1") (some ("a" ∷ [])) ∷ []) ≡ false
unfolding opt_eq
not_on = refl
