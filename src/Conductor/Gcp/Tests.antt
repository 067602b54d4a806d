-- ===== src/Conductor/Gcp/Tests.antt =====
-- Tests of the policies of the storage buckets (conductor/src/gcp/bucket_manager.rs).
use tembo.Prelude.{◌≡◌, not, ◌&&◌, ◌||◌, some, none, List, [], ◌∷◌, ◌==◌}
use tembo.Conductor.Gcp.{
  Condition, Binding, Project, condition_eq, binding_exists, update_or_create_binding,
  remove_member, create_bucket_condition,
}
use tembo.Conductor.Gcp.Granted.{
  binding_exists-update_or_create_binding, binding_exists-remove_member,
}

abbrev project : Project
project = record { project_id = "tembo"; project_number = "7" }

abbrev on_prod : Condition
on_prod = create_bucket_condition "prod" "org"

abbrev bindings : List Binding
bindings =
    record { role = "viewer"; members = "ann" ∷ []; condition = none }
    ∷ record { role = "writer"; members = "bob" ∷ []; condition = some on_prod }
    ∷ []

binding_exists-update_or_create_binding_example :
    binding_exists "writer" on_prod "ann" (update_or_create_binding "writer" on_prod "ann" bindings)
    ≡ (binding_exists "writer" on_prod "ann" bindings
        || ("writer" == "writer" && condition_eq on_prod on_prod && "ann" == "ann"))
binding_exists-update_or_create_binding_example =
    binding_exists-update_or_create_binding "writer" on_prod "ann" "writer" on_prod "ann" bindings

binding_exists-remove_member_example :
    binding_exists "writer" on_prod "bob" (remove_member "writer" "bob" bindings) ≡ (
      binding_exists "writer" on_prod "bob" bindings
      && not ("writer" == "writer" && "bob" == "bob"))
binding_exists-remove_member_example =
    binding_exists-remove_member "writer" on_prod "bob" "writer" "bob" bindings
