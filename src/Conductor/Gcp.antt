-- ===== src/Conductor/Gcp.antt =====
-- The policies of the storage buckets on Google's cloud (conductor/src/gcp/bucket_manager.rs and
-- iam_builder.rs). What the storage service answers is given.
pub mod Granted
pub mod Roundtrip
mod Tests
use Prim.Native.String
use tembo.Prelude.{
  ℕ, String, Bool, true, false, not, ◌&&◌, Option, none, some, List, [], ◌∷◌, ◌++◌, any, retain,
  list_contains, opt_eq, ◌==◌, if◌then◌else◌,
}
use tembo.Prelude.Result.{Result, ok, err}
use tembo.Prelude.Trace.{Trace, pure, call, lift, for_each, ◌>>=◌, ◌>>◌}
use tembo.Conductor.Types.{ConductorError, gcs_error}
use tembo.Prelude.Text.{concat}

pub record Condition : Type 0 where
  pub title : String
  pub description : Option String
  pub expression : String

pub record Binding : Type 0 where
  pub role : String
  pub members : List String
  pub condition : Option Condition

pub record Policy : Type 0 where
  pub version : ℕ
  pub bindings : List Binding

pub record Project : Type 0 where
  pub project_id : String
  pub project_number : String

-- `==` on conditions.
unfoldable pub condition_eq : Condition → Condition → Bool
unfolding opt_eq
condition_eq a b =
    a.title == b.title && opt_eq a.description b.description && a.expression == b.expression

abbrev pub is_condition : Option Condition → Condition → Bool
is_condition none b = false
is_condition (some a) b = condition_eq a b

abbrev pub get_storage_role : Project → String
get_storage_role project =
    concat ("projects/" ∷ project.project_id ∷ "/roles/TemboInstanceGCSRole" ∷ [])

abbrev pub create_member_string : Project → String → String → String
create_member_string project namespace service_account = concat (
    "principal://iam.googleapis.com/projects/" ∷ project.project_number
    ∷ "/locations/global/workloadIdentityPools/" ∷ project.project_id ∷ ".svc.id.goog/subject/ns/"
    ∷ namespace ∷ "/sa/" ∷ service_account ∷ [])

abbrev pub create_bucket_condition : String → String → Condition
create_bucket_condition bucket_name instance_name = record {
  title = "allow-bucket-and-path";
  description = some "Conductor managed storage bucket IAM policy condition";
  expression = concat (
      "(resource.type == \"storage.googleapis.com/Bucket\") || (resource.type == \"storage.googleapis.com/Object\" && ((resource.name.startsWith(\"projects/_/buckets/"
      ∷ bucket_name ∷ "/objects/v2/\" )) || (resource.name.startsWith(\"projects/_/buckets/"
      ∷ bucket_name ∷ "/objects/v2/" ∷ instance_name
      ∷ "\") && request.auth.claims[\"storage.googleapis.com\"].permission in [\"storage.objects.create\", \"storage.objects.delete\", \"storage.objects.update\"])))"
      ∷ []);
}

-- A binding of the role under the condition.
unfoldable pub matches : String → Condition → Binding → Bool
unfolding condition_eq
matches role condition b = b.role == role && is_condition b.condition condition

-- `binding_exists`: some binding of the role under the condition has the member.
unfoldable pub binding_exists : String → Condition → String → List Binding → Bool
unfolding matches list_contains
binding_exists role condition member bindings =
    any (λ (b : Binding). matches role condition b && list_contains b.members member) bindings

-- `IamBindingBuilder` with a role, one member and a condition.
abbrev pub create_new_binding : String → Condition → String → Binding
create_new_binding role condition member = record {
  role = role;
  members = member ∷ [];
  condition = some condition;
}

abbrev pub with_member : String → Binding → Binding
with_member member b =
    if list_contains b.members member then b else record b { members = b.members ++ member ∷ [] }

-- The first binding that matches gets the member; where none does, there is a new binding.
unfoldable pub update_or_create_binding : String → Condition → String → List Binding → List Binding
unfolding matches list_contains
update_or_create_binding role condition member [] = create_new_binding role condition member ∷ []
update_or_create_binding role condition member (b ∷ bindings) =
    let rest = update_or_create_binding role condition member bindings in
    if matches role condition b then with_member member b ∷ bindings else b ∷ rest

-- The members of a binding without one of them.
abbrev pub others : String → Binding → List String
others member b = retain (λ m. not (m == member)) b.members

abbrev pub is_nil : List String → Bool
is_nil [] = true
is_nil (_ ∷ _) = false

-- The filter of `remove_service_account_binding`: the member goes from every binding of the role,
-- whatever its condition, and a binding that has no member left goes.
unfoldable pub remove_member : String → String → List Binding → List Binding
unfolding retain
remove_member role member [] = []
remove_member role member (b ∷ bindings) =
    let rest = remove_member role member bindings in
    let kept = record b { members = others member b } ∷ rest in
    if b.role == role then if is_nil (others member b) then rest else kept else b ∷ rest

-- The call that changes something.
pub data Call : Type 0 where
  set_iam_policy : (bucket : String) → Policy → Call

pub record Storage : Type 0 where
  pub get_iam_policy : String → Result String Policy
  pub set_iam_policy : String → Policy → Result String Policy

abbrev pub gcs {a} : {A : Type a} → Result String A → Result ConductorError A
gcs (ok x) = ok x
gcs (err message) = err (gcs_error message)

abbrev pub set_policy : Storage → String → Policy → Trace Call ConductorError (Unit {0})
set_policy storage bucket policy =
    call (set_iam_policy bucket policy) (gcs (storage.set_iam_policy bucket policy)) >>= λ _.
    pure tt

-- With the conditions that the policy has, its version is 3.
abbrev pub granted_policy : String → Condition → String → Policy → Policy
granted_policy role condition member policy = record {
  version = 3;
  bindings = update_or_create_binding role condition member policy.bindings;
}

abbrev pub grant_in :
    Storage → Project → String → String → Policy → Trace Call ConductorError (Unit {0})
grant_in storage project namespace bucket policy =
    let role = get_storage_role project in
    let member = create_member_string project namespace namespace in
    let condition = create_bucket_condition bucket namespace in
    if binding_exists role condition member policy.bindings
    then pure tt
    else set_policy storage bucket (granted_policy role condition member policy)

-- `create_gcp_storage_workload_identity_binding`: the service account has the namespace's name.
unfoldable pub add_service_account_binding :
    Storage → Project → List String → String → Trace Call ConductorError (Unit {0})
unfolding for_each binding_exists
add_service_account_binding storage project buckets namespace =
    for_each
      (λ bucket.
        lift (gcs (storage.get_iam_policy bucket)) >>= grant_in storage project namespace bucket)
      buckets

unfoldable pub remove_service_account_binding :
    Storage → Project → List String → String → Trace Call ConductorError (Unit {0})
unfolding for_each remove_member
remove_service_account_binding storage project buckets namespace =
    for_each
      (λ bucket. lift (gcs (storage.get_iam_policy bucket)) >>= λ (policy : Policy).
        set_policy storage bucket (record policy {
          bindings =
              remove_member (get_storage_role project)
                (create_member_string project namespace namespace) policy.bindings;
        }))
      buckets
