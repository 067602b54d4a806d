-- ===== src/Conductor/Library/Tests.antt =====
-- Tests of the specification that the conductor makes, and of the schedule
-- (conductor/src/lib.rs).

use Prim.Native.String
use tembo.Prelude.{ℕ, ◌<◌, String, ◌≡◌, refl, ◌≢◌, some, none, [], ◌∷◌, join}
use tembo.Prelude.Int.{show}
use tembo.Operator.Types.{CoreDb, CoreDbSpec, default_spec}
use tembo.Operator.Types.Backups.{Restore, default_backup}
use tembo.Operator.Cnpg.Schedule.{schedule_expression_from_cdb}
use tembo.Conductor.Types.{aws, azure}
use tembo.Conductor.Library.{restored_path, generate_spec}
use tembo.Conductor.Library.Instance.{generate_cron_expression}
use tembo.Conductor.Library.Paths.{generate_spec_idem}
use tembo.Conductor.Library.Cron.{schedule_expression_from_cdb-cron}

abbrev from_backup : Restore
from_backup = record {
  server_name = "org-inst";
  backups_path = some "s3://backups/v2/org-inst";
  recovery_target_time = none;
  endpoint_url = none;
  s3_credentials = none;
  google_credentials = none;
  azure_credentials = none;
  volume_snapshot = none;
}

abbrev spec : CoreDbSpec
spec = record default_spec { restore = some from_backup }

abbrev hash : String → ℕ
hash _ = 119

abbrev scheduled : CoreDb
scheduled = record {
  name = some "org-inst";
  namespace = some "org-inst";
  annotations =
      some
        (generate_spec "org" "inst" "inst_1" "plane" "org-inst" "backups" none spec
          aws).annotations;
  spec = record default_spec {
    backup = record default_backup { schedule = some (generate_cron_expression hash "org-inst") };
  };
  status = none;
}

cron_test : generate_cron_expression hash "org-inst" ≡ "59 23 * * *"
unfolding generate_cron_expression show
cron_test = refl

schedule_expression_from_cdb-cron_example :
    (minute : ℕ) × (hour : ℕ) × (minute < 60)
    × (hour < 24)
    × (generate_cron_expression hash "org-inst"
        ≡ join " " (show minute ∷ show hour ∷ "*" ∷ "*" ∷ "*" ∷ []))
    × (schedule_expression_from_cdb scheduled
        ≡ String.◌++◌ "0 " (generate_cron_expression hash "org-inst"))
schedule_expression_from_cdb-cron_example =
    schedule_expression_from_cdb-cron hash "org-inst" scheduled refl

-- On Azure the account and the bucket are put before the path once more.
azure_test :
    restored_path azure
      (some "acc")
      "backups"
      (restored_path azure (some "acc") "backups" "s3://backups/v2/org-inst")
    ≡ "https://acc.blob.core.windows.net/backups/acc.blob.core.windows.net/backups/v2/org-inst"
unfolding restored_path
azure_test = refl

aws-ne-azure : aws ≢ azure
aws-ne-azure h = cc

generate_spec_idem_example :
    generate_spec "org" "inst" "inst_1" "plane" "org-inst" "backups" none
      (generate_spec "org" "inst" "inst_1" "plane" "org-inst" "backups" none spec aws).spec
      aws
    ≡ generate_spec "org" "inst" "inst_1" "plane" "org-inst" "backups" none spec aws
generate_spec_idem_example =
    generate_spec_idem "org" "inst" "inst_1" "plane" "org-inst" "backups" none spec aws aws-ne-azure
