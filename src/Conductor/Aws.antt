-- ===== src/Conductor/Aws.antt =====
-- The stacks of roles on Amazon's cloud (conductor/src/aws/cloudformation.rs and the calls of it in
-- conductor/src/lib.rs).
use tembo.Prelude.{
  String, Bool, true, false, Option, none, some, List, [], ◌∷◌, ◌==◌, is_some, unwrap_or,
  if◌then◌else◌,
}
use tembo.Prelude.Result
use tembo.Prelude.Result.{Result, ok, err, ok_or}
use tembo.Prelude.Trace.{Trace, pure, call}
use tembo.Conductor.Types.{ConductorError, aws_error, no_outputs_found}
use tembo.Prelude.Text.{concat}

pub record CloudFormationParams : Type 0 where
  pub backups_bucket_name : String
  pub storage_bucket_name : String
  pub read_path_prefix : String
  pub write_path_prefix : String
  pub role_name : String
  pub namespace : String
  pub service_account_name : String

-- The keys and the values of the parameters.
unfoldable pub parameters : CloudFormationParams → List (String × String)
parameters params =
    ("BackupsBucketName", params.backups_bucket_name)
    ∷ ("StorageBucketName", params.storage_bucket_name)
    ∷ ("ReadPathPrefix", params.read_path_prefix)
    ∷ ("WritePathPrefix", params.write_path_prefix)
    ∷ ("RoleName", params.role_name)
    ∷ ("Namespace", params.namespace)
    ∷ ("ServiceAccountName", params.service_account_name)
    ∷ []

pub data StackStatus : Type 0 where
  create_complete update_complete other_status : StackStatus

pub record Output : Type 0 where
  pub output_key : Option String
  pub output_value : Option String

pub record Stack : Type 0 where
  pub stack_status : Option StackStatus
  pub outputs : Option (List Output)

pub data Call : Type 0 where
  create_stack : (name template_url : String) → List (String × String) → Call
  delete_stack : (name : String) → Call

-- `describe_stacks` answers with the stacks of a name, if there is such a list.
pub record CloudFormation : Type 0 where
  pub describe_stacks : String → Result String (Option (List Stack))
  pub answer : Call → Result String (Unit {0})

abbrev pub cloud {a} : {A : Type a} → Result String A → Result ConductorError A
cloud (ok x) = ok x
cloud (err message) = err (aws_error message)

abbrev pub does_stack_exist : CloudFormation → String → Bool
does_stack_exist cf stack_name = elim (cf.describe_stacks stack_name) [
  | ok stacks ↦ is_some stacks
  | err _ ↦ false
]

abbrev pub template_url : String → String → String
template_url bucket aws_region =
    if aws_region == "us-east-1"
    then concat ("https://" ∷ bucket ∷ ".s3.amazonaws.com/conductor-cf-template-v3.yaml" ∷ [])
    else concat (
        "https://" ∷ bucket ∷ ".s3." ∷ aws_region ∷ ".amazonaws.com/conductor-cf-template-v3.yaml"
        ∷ [])

abbrev pub send : CloudFormation → Call → Trace Call ConductorError (Unit {0})
send cf asked = call asked (cloud (cf.answer asked))

unfoldable pub create_cloudformation_stack :
    CloudFormation
    → String
    → CloudFormationParams
    → String
    → String
    → Trace Call ConductorError (Unit {0})
unfolding parameters
create_cloudformation_stack cf stack_name params bucket aws_region =
    if does_stack_exist cf stack_name
    then pure tt
    else send cf (create_stack stack_name (template_url bucket aws_region) (parameters params))

unfoldable pub delete_cloudformation_stack :
    CloudFormation → String → Trace Call ConductorError (Unit {0})
delete_cloudformation_stack cf stack_name =
    if does_stack_exist cf stack_name then send cf (delete_stack stack_name) else pure tt

-- The last output of the key.
unfoldable pub output_of : String → List Output → Option String → Option String
output_of key [] value = value
output_of key (output ∷ outputs) value =
    output_of key outputs
      (if unwrap_or "" output.output_key == key then output.output_value else value)

abbrev pub is_complete : Option StackStatus → Bool
is_complete (some create_complete) = true
is_complete (some update_complete) = true
is_complete _ = false

abbrev pub outputs_if : Bool → Option (List Output) → Option (List Output)
outputs_if true outputs = outputs
outputs_if false outputs = none

-- The outputs of the first stack that is complete and has outputs.
unfoldable pub first_outputs : List Stack → Option (List Output)
first_outputs [] = none
first_outputs (stack ∷ stacks) =
    let rest = first_outputs stacks in
    elim (outputs_if (is_complete stack.stack_status) stack.outputs) [
      | some outputs ↦ some outputs
      | none ↦ rest
    ]

-- The name and the ARN of the role.
unfoldable pub lookup_cloudformation_stack :
    CloudFormation → String → Result ConductorError (Option String × Option String)
unfolding first_outputs output_of
lookup_cloudformation_stack cf stack_name =
    Result.◌>>=◌ (cloud (cf.describe_stacks stack_name)) (λ stacks.
      Result.◌>>=◌ (ok_or no_outputs_found (first_outputs (unwrap_or [] stacks)))
        (λ outputs. ok (output_of "RoleName" outputs none, output_of "RoleArn" outputs none)))

unfoldable pub lookup_role_arn : CloudFormation → String → Result ConductorError String
unfolding lookup_cloudformation_stack
lookup_role_arn cf namespace =
    Result.◌>>=◌ (lookup_cloudformation_stack cf (concat (namespace ∷ "-cf" ∷ [])))
      (λ outputs. ok_or no_outputs_found outputs.1)

abbrev pub params_of :
    String → String → String → Option String → Option String → CloudFormationParams
params_of backup_bucket storage_bucket namespace read_path write_path = record {
  backups_bucket_name = backup_bucket;
  storage_bucket_name = storage_bucket;
  read_path_prefix = unwrap_or (concat ("v2/" ∷ namespace ∷ [])) read_path;
  write_path_prefix = unwrap_or (concat ("v2/" ∷ namespace ∷ [])) write_path;
  role_name = concat (namespace ∷ "-iam" ∷ []);
  namespace = namespace;
  service_account_name = namespace;
}

unfoldable pub create_cloudformation :
    CloudFormation
    → String
    → String
    → String
    → String
    → Option String
    → Option String
    → String
    → Trace Call ConductorError (Unit {0})
unfolding create_cloudformation_stack
create_cloudformation cf aws_region backup_bucket storage_bucket namespace read_path write_path
      template_bucket =
    create_cloudformation_stack cf (concat (namespace ∷ "-cf" ∷ []))
      (params_of backup_bucket storage_bucket namespace read_path write_path) template_bucket
      aws_region

unfoldable pub delete_cloudformation :
    CloudFormation → String → Trace Call ConductorError (Unit {0})
unfolding delete_cloudformation_stack
delete_cloudformation cf namespace =
    delete_cloudformation_stack cf (concat (namespace ∷ "-cf" ∷ []))
