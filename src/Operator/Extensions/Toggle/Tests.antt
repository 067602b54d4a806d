-- ===== src/Operator/Extensions/Toggle/Tests.antt =====
-- Tests of the switching of extensions
-- (tembo-operator/src/extensions/types.rs, database_queries.rs and toggle.rs).
use tembo.Prelude.{
  String, ◌≡◌, refl, true, false, none, some, [], ◌∷◌, All, map, list_contains, contains, str_lt,
  if◌then◌else◌,
}
use tembo.Prelude.BTreeSet
use tembo.Prelude.BTreeMap
use tembo.Prelude.BTreeMap.{BTreeMap}
use tembo.Prelude.Result.{Result, ok}
use tembo.Operator.Params.Value.{display, merge_pg_configs}
use tembo.Operator.Spec.{
  get_pg_configs, get_pg_config_by_name, runtime_layer, merge_multivals, assemble, insert_all,
  remove_all, libraries_from, require_library, replace_or_push,
}
use tembo.Operator.Registry.{Registry}
use tembo.Operator.Types.{ExtensionInstallLocation, CoreDb, default_spec}
use tembo.Operator.Api.{Action, requeue}
use tembo.Operator.Extensions.Toggle.Command.{
  PsqlOutput, Psql, psql, check_input, is_letter, matches_rest, enable_cmd, toggle_extension,
}
use tembo.Operator.Extensions.Toggle.Plain.{
  HasPlainNames, is_formatted, toggle_extension-HasPlainNames,
}
use tembo.Operator.Extensions.Toggle.Run.{Answers, requeue_if_expecting_shared_preload_library}
use tembo.Operator.Extensions.Toggle.Loop.{toggle_location}
use tembo.Operator.Extensions.Toggle.Waits.{toggle_location-waits}

abbrev in_public : ExtensionInstallLocation
in_public = record { enabled = true; database = "postgres"; version = none; schema = some "public" }

abbrev succeeds : Psql → Result Action PsqlOutput
succeeds _ = ok (record { stdout = none; stderr = none; success = true })

-- Cases of the source's test_check_input.
invalids_test :
    map check_input ("extension--" ∷ "data;" ∷ "invalid^#$$characters" ∷ ";invalid" ∷ "" ∷ [])
    ≡ false ∷ false ∷ false ∷ false ∷ false ∷ []
unfolding check_input is_letter matches_rest
invalids_test = refl

valids_test :
    map check_input ("extension_a" ∷ "NewExtension123" ∷ "postgis_tiger_geocoder-3" ∷ "xml2" ∷ [])
    ≡ true ∷ true ∷ true ∷ true ∷ []
unfolding check_input is_letter matches_rest
valids_test = refl

command_test :
    enable_cmd "pg_cron" in_public
    ≡ "CREATE EXTENSION IF NOT EXISTS \"pg_cron\" SCHEMA public CASCADE;UPDATE cron.job SET nodename = '';"
unfolding enable_cmd
command_test = refl

toggle_extension-HasPlainNames_example :
    ((toggle_extension succeeds "pg_cron" in_public).0 ≡ (
      if is_formatted "pg_cron" in_public
      then psql (enable_cmd "pg_cron" in_public) "postgres" ∷ []
      else []))
    × All (HasPlainNames "pg_cron" in_public) (toggle_extension succeeds "pg_cron" in_public).0
toggle_extension-HasPlainNames_example = toggle_extension-HasPlainNames succeeds "pg_cron" in_public

abbrev requires_load : BTreeMap String
requires_load = ("pg_cron", "pg_cron") ∷ []

-- pg_cron is enabled, so that it stands in the configuration.
abbrev with_cron : CoreDb
with_cron = record {
  name = some "db";
  namespace = some "org";
  annotations = none;
  spec = record default_spec {
    extensions = record { name = "pg_cron"; description = none; locations = in_public ∷ [] } ∷ [];
  };
  status = none;
}

abbrev registry : Registry
registry = record {
  domain = none;
  get = λ _. ok (record { is_success = true; error_for_status = ""; json = ok [] });
  parses = λ _. true;
}

abbrev answers : Answers
answers = record {
  registry = registry;
  psql = succeeds;
  update = λ _. ok tt;
  current = λ _ _. ok with_cron;
  reread = ok with_cron;
  libraries = ok [];
  requires_load = ok requires_load;
  all_extensions = ok [];
  pods = ok [];
  check_for_so_files = λ _ _. ok false;
}

toggle_location-waits_example :
    (toggle_location answers with_cron [] requires_load "pg_cron" in_public []).0 ≡ []
unfolding requeue_if_expecting_shared_preload_library get_pg_configs get_pg_config_by_name
    runtime_layer merge_multivals merge_pg_configs assemble insert_all remove_all libraries_from
    require_library replace_or_push display BTreeSet.insert BTreeSet.append BTreeMap.insert
    BTreeMap.remove BTreeMap.get list_contains contains str_lt
toggle_location-waits_example =
    toggle_location-waits answers with_cron [] requires_load "pg_cron" in_public [] (requeue 10)
      refl refl refl refl
