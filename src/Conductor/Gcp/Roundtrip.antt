-- ===== src/Conductor/Gcp/Roundtrip.antt =====
-- What was granted is taken back as if it had not been granted
-- (conductor/src/gcp/bucket_manager.rs).

use text.Mathlib.TextPositions.{eq_refl}
use tembo.Prelude.{
  String, ◌≡◌, refl, ap, ◌∙◌, inl, inr, Bool, true, false, not, ◌&&◌, ◌||◌, List, [], ◌∷◌, ◌++◌,
  retain, list_contains, ◌==◌, arith, Bool-cases, All, if◌then◌else◌,
}
use tembo.Conductor.Gcp.{
  Condition, Binding, matches, with_member, create_new_binding, is_nil, update_or_create_binding,
  remove_member,
}

-- A binding of the role has members, and the member is none of them.
abbrev pub is_without : String → String → Binding → Bool
is_without role member b =
    not (b.role == role) || (not (list_contains b.members member) && not (is_nil b.members))

retain-absent :
    (member : String) (xs : List String)
    → list_contains xs member ≡ false
    → retain (λ m. not (m == member)) xs ≡ xs
unfolding retain list_contains
retain-absent member [] h = refl
retain-absent member (x ∷ xs) h = ground (arith, retain-absent member xs)

retain-append :
    (member : String) (xs : List String)
    → list_contains xs member ≡ false
    → retain (λ m. not (m == member)) (xs ++ member ∷ []) ≡ xs
unfolding retain list_contains
retain-append member [] h = rw (eq_refl member) refl
retain-append member (x ∷ xs) h = ground (arith, retain-append member xs)

module _ (role member : String) where
  -- A binding without the member stays.
  remove-without :
      (b : Binding) (bindings : List Binding)
      → is_without role member b ≡ true
      → remove_member role member (b ∷ bindings) ≡ b ∷ remove_member role member bindings
  unfolding remove_member
  remove-without b bindings h = elim (Bool-cases (b.role == role)) [
    | inl e ↦
        let absent : list_contains b.members member ≡ false = ground arith in
        let some_left : is_nil b.members ≡ false = ground arith in
        rw (e, if◌then◌else◌) (rw (retain-absent member b.members absent) (rw some_left refl))
    | inr e ↦ rw (e, if◌then◌else◌) refl
  ]

  remove-untouched :
      (bindings : List Binding)
      → All (λ b. is_without role member b ≡ true) bindings
      → remove_member role member bindings ≡ bindings
  unfolding remove_member
  remove-untouched [] h = refl
  remove-untouched (b ∷ bindings) (h, k) =
      remove-without b bindings h ∙ ap (λ bs. b ∷ bs) (remove-untouched bindings k)

  -- A binding that got the member loses it.
  remove-with_member :
      (b : Binding) (bindings : List Binding)
      → b.role == role ≡ true
      → is_without role member b ≡ true
      → remove_member role member (with_member member b ∷ bindings)
        ≡ b ∷ remove_member role member bindings
  unfolding remove_member
  remove-with_member b bindings e h =
      let absent : list_contains b.members member ≡ false = ground arith in
      let some_left : is_nil b.members ≡ false = ground arith in
      rw (absent, if◌then◌else◌)
        (rw (e, if◌then◌else◌) (rw (retain-append member b.members absent) (rw some_left refl)))

  remove-new :
      (condition : Condition)
      → remove_member role member (create_new_binding role condition member ∷ []) ≡ []
  unfolding remove_member retain
  remove-new condition = rw (eq_refl role, if◌then◌else◌) (rw (eq_refl member) refl)

  role-matches :
      (condition : Condition) (b : Binding)
      → matches role condition b ≡ true
      → b.role == role ≡ true
  unfolding matches
  role-matches condition b h = ground arith

  -- When no binding of the role has the member, and none is empty, then to grant the role to the
  -- member and to remove the member again leaves the bindings as they were.
  pub remove_member-update_or_create_binding :
      (condition : Condition) (bindings : List Binding)
      → All (λ b. is_without role member b ≡ true) bindings
      → remove_member role member (update_or_create_binding role condition member bindings)
        ≡ bindings
  unfolding update_or_create_binding
  remove_member-update_or_create_binding condition [] h = remove-new condition
  remove_member-update_or_create_binding condition (b ∷ bindings) (h, k) =
      elim (Bool-cases (matches role condition b)) [
        | inl e ↦
            rw (e, if◌then◌else◌)
              (remove-with_member b bindings (role-matches condition b e) h
                ∙ ap (λ bs. b ∷ bs) (remove-untouched bindings k))
        | inr e ↦
            rw (e, if◌then◌else◌)
              (remove-without b (update_or_create_binding role condition member bindings) h
                ∙ ap (λ bs. b ∷ bs) (remove_member-update_or_create_binding condition bindings k))
      ]
