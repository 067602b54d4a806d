-- ===== src/Operator/Extensions/Trunk/Installed.antt =====
-- What the status says of a package after an installation
-- (tembo-operator/src/extensions/kubernetes_queries.rs).
use tembo.Prelude.{
  String, ◌≡◌, ◌∙◌, refl, Bool, true, false, not, ◌&&◌, ◌||◌, Option, none, some, List, [], ◌∷◌,
  ◌++◌, map, arith, ◌==◌, opt_eq, opt_eq_iff, any, any-append, any-dedup_by, list_contains,
  list_contains-eq-any, eq_iff, unwrap_or, str_le,
}
use tembo.Prelude.Sort.{any-sort_by}
use tembo.Operator.Types.{TrunkInstallStatus}
use tembo.Operator.Extensions.Trunk.{
  name_le, add_pods, update_existing, push_new, update_trunk_installs,
}

abbrev pub pods_of : TrunkInstallStatus → List String
pods_of t = unwrap_or [] t.installed_to_pods

-- A status of the package in the version.
abbrev pub is_of : String → Option String → TrunkInstallStatus → Bool
is_of name version t = t.name == name && opt_eq t.version version

-- Such a status, with the pod among those that have the package.
abbrev pub is_on : String → Option String → String → TrunkInstallStatus → Bool
is_on name version pod t = is_of name version t && list_contains (pods_of t) pod

or_false : (b : Bool) → b ≡ (b || false)
or_false true = refl
or_false false = refl

contains-add_pods :
    (a b : Option (List String)) (pod : String)
    → list_contains (unwrap_or [] (add_pods a b)) pod
      ≡ (list_contains (unwrap_or [] a) pod || list_contains (unwrap_or [] b) pod)
unfolding add_pods list_contains
contains-add_pods a none pod = or_false (list_contains (unwrap_or [] a) pod)
contains-add_pods a (some b) pod =
    list_contains-eq-any _ pod
    ∙ any-dedup_by (λ x. x == pod) ◌==◌ (λ x k h. rw ((eq_iff x k).0 h)) _
    ∙ any-sort_by str_le (λ x. x == pod) (unwrap_or [] a ++ b)
    ∙ any-append (λ x. x == pod) (unwrap_or [] a) b
    ∙ rw (list_contains-eq-any (unwrap_or [] a) pod, list_contains-eq-any b pod)

is_on-update_existing :
    (new t : TrunkInstallStatus) (name : String) (version : Option String) (pod : String)
    → is_on name version pod (update_existing new t)
      ≡ (is_on name version pod t || (is_of name version t && is_on name version pod new))
unfolding update_existing
is_on-update_existing new t name version pod = ground (
  arith,
  contains-add_pods t.installed_to_pods new.installed_to_pods pod,
  eq_iff t.name name,
  eq_iff t.name new.name,
  eq_iff new.name name,
  opt_eq_iff t.version version,
  opt_eq_iff t.version new.version,
  opt_eq_iff new.version version,
)

any-map-update_existing :
    (new : TrunkInstallStatus) (ts : List TrunkInstallStatus) (name : String)
    (version : Option String) (pod : String)
    → any (is_on name version pod) (map (update_existing new) ts) ≡ (
        any (is_on name version pod) ts
        || (any (is_of name version) ts && is_on name version pod new))
any-map-update_existing new [] name version pod = refl
any-map-update_existing new (t ∷ ts) name version pod =
    rw
      (
        is_on-update_existing new t name version pod,
        any-map-update_existing new ts name version pod,
      )
      (distribute (is_on name version pod t) (is_of name version t) (is_on name version pod new)
        (any (is_on name version pod) ts) (any (is_of name version) ts))
  where
    distribute :
        (a b c d e : Bool) → ((a || (b && c)) || (d || (e && c))) ≡ ((a || d) || ((b || e) && c))
    distribute a b c d e = ground arith

any_name-map-update_existing :
    (new : TrunkInstallStatus) (ts : List TrunkInstallStatus) (name : String)
    → any (λ t. t.name == name) (map (update_existing new) ts) ≡ any (λ t. t.name == name) ts
unfolding update_existing
any_name-map-update_existing new [] name = refl
any_name-map-update_existing new (t ∷ ts) name =
    ground (arith, any_name-map-update_existing new ts name)

any-push_new :
    (p : TrunkInstallStatus → Bool) (new : TrunkInstallStatus) (ts : List TrunkInstallStatus)
    → any p (push_new new ts) ≡ (any p ts || (not (any (λ t. t.name == new.name) ts) && p new))
any-push_new p new ts = ground (arith, any-append p ts (new ∷ []))

-- After `update_trunk_installs` a pod is known to have a package in a version exactly if it was
-- known before, or the new status says so and counts: there was a status of that package and
-- version, or none of that package in any version.
pub update_trunk_installs-is_on :
    (current : List TrunkInstallStatus) (new : TrunkInstallStatus) (name : String)
    (version : Option String) (pod : String)
    → any (is_on name version pod) (update_trunk_installs current new) ≡ (
        any (is_on name version pod) current
        || (is_on name version pod new
            && (any (is_of name version) current || not (any (λ t. t.name == new.name) current))))
unfolding update_trunk_installs
update_trunk_installs-is_on current new name version pod =
    any-sort_by name_le (is_on name version pod) _
    ∙ any-push_new (is_on name version pod) new (map (update_existing new) current)
    ∙ rw
        (
          any-map-update_existing new current name version pod,
          any_name-map-update_existing new current new.name,
        )
        (regroup (any (is_on name version pod) current) (any (is_of name version) current)
          (is_on name version pod new) (any (λ t. t.name == new.name) current))
  where
    regroup : (a b c d : Bool) → ((a || (b && c)) || (not d && c)) ≡ (a || (c && (b || not d)))
    regroup a b c d = ground arith
