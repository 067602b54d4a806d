-- ===== src/Conductor/Environment.antt =====
-- The checks of the environment with which `run` begins (conductor/src/main.rs). A panic is an
-- error, with its text.
use Prim.Native.String
use tembo.Prelude.{
  ℕ, ◌+◌, String, ◌≡◌, ◌↔◌, Bool, true, false, ◌&&◌, ◌||◌, List, [], ◌∷◌, map, retain, join, leb,
  ◌==◌, eq_iff, arith, if◌then◌else◌,
}
use tembo.Prelude.Result.{Result, ok, err}
use tembo.Conductor.Types.{Config, aws, azure, gcp, cloud_provider}

abbrev pub is_empty : String → Bool
is_empty s = s == ""

abbrev pub required_vars : String → String → String → String → List (String × String)
required_vars account subscription prefix region =
    ("AZURE_STORAGE_ACCOUNT", account)
    ∷ ("AZURE_SUBSCRIPTION_ID", subscription)
    ∷ ("AZURE_RESOURCE_GROUP_PREFIX", prefix)
    ∷ ("AZURE_REGION", region)
    ∷ []

abbrev pub report_missing : List String → Result String (Unit {0})
report_missing [] = ok tt
report_missing (name ∷ names) = err (
    String.◌++◌ "The following required Azure environment variables are empty: "
      (join ", " (name ∷ names)))

unfoldable pub validate_azure_environment :
    Bool → String → String → String → String → Result String (Unit {0})
unfolding retain
validate_azure_environment is_azure account subscription prefix region =
    if is_azure
    then report_missing (
        map (λ v. v.0)
          (retain (λ v. is_empty v.1) (required_vars account subscription prefix region)))
    else ok tt

abbrev pub one_if : Bool → ℕ
one_if true = 1
one_if false = 0

unfoldable pub check_environment : Config → Result String (Unit {0})
check_environment config =
    if config.is_cloud_formation && is_empty config.cf_template_bucket
    then err "CF_TEMPLATE_BUCKET is required when IS_CLOUD_FORMATION is true"
    else if leb 2
        (one_if config.is_cloud_formation + (one_if config.is_gcp + one_if config.is_azure))
    then err "Only one of IS_CLOUD_FORMATION, IS_GCP, or IS_AZURE can be set to true"
    else if config.is_gcp && (is_empty config.gcp_project_id || is_empty config.gcp_project_number)
    then err "GCP_PROJECT_ID and GCP_PROJECT_NUMBER must be set if IS_GCP is true"
    else validate_azure_environment config.is_azure config.azure_storage_account
        config.azure_subscription_id config.azure_resource_group_prefix config.azure_region

-- The environment of Azure is accepted exactly if Azure is off or none of its variables is empty.
pub validate_azure_environment_ok_iff :
    (is_azure : Bool) (account subscription prefix region : String)
    → (validate_azure_environment is_azure account subscription prefix region ≡ ok tt) ↔ (
        (is_azure
          && (is_empty account || (is_empty subscription || (is_empty prefix || is_empty region))))
        ≡ false)
unfolding validate_azure_environment
validate_azure_environment_ok_iff is_azure a s p r =
    ground (arith, eq_iff a "", eq_iff s "", eq_iff p "", eq_iff r "")

-- In an environment that is accepted, the cloud is the one that is switched on.
pub check_environment-cloud_provider :
    (config : Config)
    → check_environment config ≡ ok tt
    → ((cloud_provider config ≡ aws) ↔ (config.is_cloud_formation ≡ true))
      × ((cloud_provider config ≡ gcp) ↔ (config.is_gcp ≡ true))
      × ((cloud_provider config ≡ azure) ↔ (config.is_azure ≡ true))
unfolding check_environment
check_environment-cloud_provider config h = ground arith
