-- ===== src/Operator/Extensions/Trunk/Removed.antt =====
-- What is left when packages are removed from the status
-- (tembo-operator/src/extensions/kubernetes_queries.rs).
use tembo.Prelude.{
  String, ◌≡◌, ◌∙◌, refl, true, not, Option, none, List, [], ◌∷◌, arith, ◌==◌, if◌then◌else◌, find,
  retain, find-dedup_by, list_contains, eq_iff, str_lt_irrefl,
}
use tembo.Prelude.Sort.{find-sort_by}
use tembo.Operator.Types.{TrunkInstallStatus}
use tembo.Operator.Extensions.Trunk.{name_le, same_name, retain_all, without_installs}

-- The first status of a name.
abbrev pub install_of : String → List TrunkInstallStatus → Option TrunkInstallStatus
install_of name statuses = find (λ t. t.name == name) statuses

install_of-retain :
    (removed name : String) (ts : List TrunkInstallStatus)
    → install_of name (retain (λ t. not (t.name == removed)) ts)
      ≡ (if removed == name then none else install_of name ts)
unfolding find retain
install_of-retain removed name [] = ground arith
install_of-retain removed name (t ∷ ts) = ground (
  arith,
  eq_iff t.name removed,
  eq_iff t.name name,
  eq_iff removed name,
  install_of-retain removed name ts,
)

install_of-retain_all :
    (names : List String) (name : String) (ts : List TrunkInstallStatus)
    → install_of name (retain_all names ts)
      ≡ (if list_contains names name then none else install_of name ts)
unfolding retain_all list_contains
install_of-retain_all [] name ts = refl
install_of-retain_all (n ∷ ns) name ts =
    install_of-retain_all ns name (retain (λ t. not (t.name == n)) ts)
    ∙ rw (install_of-retain n name ts) (ground arith)

tie :
    (name : String) (a b : TrunkInstallStatus)
    → (a.name == name) ≡ true
    → (b.name == name) ≡ true
    → name_le a b ≡ true
tie name a b h k = ground (arith, eq_iff a.name name, eq_iff b.name name, str_lt_irrefl name)

-- After a removal the names that were removed have no status, and every other name has the status
-- that it had.
pub without_installs_lem :
    (names : List String) (name : String) (current : List TrunkInstallStatus)
    → install_of name (without_installs names current)
      ≡ (if list_contains names name then none else install_of name current)
unfolding without_installs
without_installs_lem names name current =
    find-dedup_by (λ t. t.name == name) same_name (λ x k h. rw ((eq_iff x.name k.name).0 h)) _
    ∙ find-sort_by name_le (λ t. t.name == name) (tie name) (retain_all names current)
    ∙ install_of-retain_all names name current
