-- ===== src/Conductor/Gcp/Granted.antt =====
-- Who is granted what by a policy, after it was changed (conductor/src/gcp/bucket_manager.rs).

use tembo.Prelude.{
  String, ◌≡◌, refl, ◌↔◌, inl, inr, Bool, true, false, not, ◌&&◌, ◌||◌, Option, none, some, List,
  [], ◌∷◌, ◌++◌, retain, list_contains, opt_eq_iff, eq_iff, ◌==◌, arith, Bool-cases, if◌then◌else◌,
}
use tembo.Conductor.Gcp.{
  Condition, Binding, is_condition, condition_eq, matches, binding_exists, with_member,
  create_new_binding, others, is_nil, update_or_create_binding, remove_member,
}

pub condition_eq_iff : (a b : Condition) → (condition_eq a b ≡ true) ↔ (a ≡ b)
unfolding condition_eq
condition_eq_iff a b = ground (
  arith,
  eq_iff a.title b.title,
  opt_eq_iff a.description b.description,
  eq_iff a.expression b.expression,
)

same_condition :
    (o : Option Condition) (condition c : Condition)
    → is_condition o condition ≡ true
    → is_condition o c ≡ condition_eq condition c
same_condition none condition c h = absurd (cc)
same_condition (some d) condition c h = rw ((condition_eq_iff d condition).0 h) refl

-- A binding that matches one role and condition matches another one if these are the same.
matches-matches :
    (role r : String) (condition c : Condition) (b : Binding)
    → matches role condition b ≡ true
    → matches r c b ≡ (role == r && condition_eq condition c)
unfolding matches
matches-matches role r condition c b h =
    ground (arith, eq_iff b.role role, same_condition b.condition condition c)

contains-append :
    (xs : List String) (x a : String)
    → list_contains (xs ++ x ∷ []) a ≡ (list_contains xs a || x == a)
unfolding list_contains
contains-append [] x a = ground arith
contains-append (y ∷ xs) x a = ground (arith, contains-append xs x a)

contains-retain :
    (xs : List String) (x a : String)
    → list_contains (retain (λ m. not (m == x)) xs) a ≡ (list_contains xs a && not (a == x))
unfolding list_contains retain
contains-retain [] x a = refl
contains-retain (y ∷ xs) x a =
    ground (arith, contains-retain xs x a, eq_iff y x, eq_iff y a, eq_iff a x)

module _ (r : String) (c : Condition) (m : String) where
  -- A binding grants the member the role under the condition.
  abbrev grants : Binding → Bool
  grants b = matches r c b && list_contains b.members m

  grants-with_member :
      (member : String) (b : Binding)
      → grants (with_member member b) ≡ (grants b || (matches r c b && member == m))
  unfolding matches
  grants-with_member member b = elim (Bool-cases (list_contains b.members member)) [
    | inl e ↦ rw (e, if◌then◌else◌) (ground (arith, eq_iff member m))
    | inr e ↦ rw (e, if◌then◌else◌) (ground (arith, contains-append b.members member m))
  ]

  matches-role : (b : Binding) → matches r c b ≡ (b.role == r && is_condition b.condition c)
  unfolding matches
  matches-role b = refl

  matches-new :
      (role : String) (condition : Condition) (member : String)
      → matches r c (create_new_binding role condition member)
        ≡ (role == r && condition_eq condition c)
  unfolding matches
  matches-new role condition member = refl

  -- After the change of a policy a member has a role under a condition exactly if it had it, or if
  -- these are the member, the role and the condition that were granted.
  pub binding_exists-update_or_create_binding :
      (role : String) (condition : Condition) (member : String) (bindings : List Binding)
      → binding_exists r c m (update_or_create_binding role condition member bindings)
        ≡ (binding_exists r c m bindings || (role == r && condition_eq condition c && member == m))
  unfolding binding_exists update_or_create_binding
  binding_exists-update_or_create_binding role condition member [] =
      rw (matches-new role condition member) (ground arith)
  binding_exists-update_or_create_binding role condition member (b ∷ bindings) =
      elim (Bool-cases (matches role condition b)) [
        | inl e ↦
            rw (e, if◌then◌else◌)
              (ground (arith, grants-with_member member b, matches-matches role r condition c b e))
        | inr e ↦
            rw (e, if◌then◌else◌)
              (ground
                (arith, binding_exists-update_or_create_binding role condition member bindings))
      ]

  contains_none : (xs : List String) → is_nil xs ≡ true → list_contains xs m ≡ false
  unfolding list_contains
  contains_none [] h = refl
  contains_none (x ∷ xs) h = absurd (cc)

  -- After a removal a member has a role under a condition exactly if it had it, and it is not the
  -- role and the member that were removed.
  pub binding_exists-remove_member :
      (role member : String) (bindings : List Binding)
      → binding_exists r c m (remove_member role member bindings)
        ≡ (binding_exists r c m bindings && not (role == r && member == m))
  unfolding binding_exists remove_member
  binding_exists-remove_member role member [] = refl
  binding_exists-remove_member role member (b ∷ bindings) = elim (Bool-cases (b.role == role)) [
    | inl e ↦ elim (Bool-cases (is_nil (others member b))) [
      | inl f ↦
          rw (e, if◌then◌else◌)
            (rw (f, if◌then◌else◌)
              (ground (
                arith,
                contains_none (others member b) f,
                eq_iff b.role role,
                eq_iff m member,
                eq_iff member m,
                eq_iff b.role r,
                eq_iff role r,
                matches-role b,
                contains-retain b.members member m,
                binding_exists-remove_member role member bindings,
              )))
      | inr f ↦
          rw (e, if◌then◌else◌)
            (rw (f, if◌then◌else◌)
              (ground (
                arith,
                eq_iff b.role role,
                eq_iff m member,
                eq_iff member m,
                eq_iff b.role r,
                eq_iff role r,
                matches-role b,
                contains-retain b.members member m,
                binding_exists-remove_member role member bindings,
              )))
    ]
    | inr e ↦
        rw (e, if◌then◌else◌)
          (ground (
            arith,
            eq_iff b.role role,
            eq_iff b.role r,
            eq_iff role r,
            matches-role b,
            binding_exists-remove_member role member bindings,
          ))
  ]
