-- ===== src/Operator/Extensions/Install/Pods.antt =====
-- The pods of an instance, fenced or not (tembo-operator/src/extensions/install.rs).
use tembo.Prelude.{
  ℕ, ◌+◌, String, ◌≡◌, refl, ◌∙◌, ap, Bool, true, false, ◌||◌, Option, none, some, List, [], ◌∷◌,
  ◌++◌, any, list_contains, ◌==◌, eq_iff, unwrap_or, arith,
}
use tembo.Operator.Extensions.Install.{
  Pod, PodList, insert_named, none_yet, insert_non_fenced, add_non_fenced, add_fenced,
  merge_and_deduplicate_pods,
}

abbrev pub is_named : String → Option String → Bool
is_named name none = false
is_named name (some n) = n == name

abbrev pub has_pod : String → List Pod → Bool
has_pod name pods = any (λ pod. is_named name pod.name) pods

abbrev pub one_if : Bool → ℕ
one_if true = 1
one_if false = 0

-- How often a name stands among the pods.
abbrev pub count : String → List Pod → ℕ
count name [] = 0
count name (pod ∷ pods) = one_if (is_named name pod.name) + count name pods

-- Every name of the set stands among the pods once, and no other.
abbrev Agrees : PodList → Type 0
Agrees pods =
    (name : String) → count name pods.all_pods ≡ one_if (list_contains pods.unique_pod_names name)

count-push :
    (name : String) (pods : List Pod) (pod : Pod)
    → count name (pods ++ pod ∷ []) ≡ count name pods + one_if (is_named name pod.name)
count-push name [] pod = ground arith
count-push name (p ∷ ps) pod = ground (arith, count-push name ps pod)

insert_named-Agrees :
    (pods : PodList) (name : String) (pod : Pod)
    → pod.name ≡ some name
    → Agrees pods
    → Agrees (insert_named pods name pod)
unfolding list_contains
insert_named-Agrees pods name pod h agrees n =
    ground (arith, agrees n, agrees name, eq_iff name n, count-push n pods.all_pods pod)

contains-insert_named :
    (pods : PodList) (name : String) (pod : Pod) (n : String)
    → list_contains (insert_named pods name pod).unique_pod_names n
      ≡ (list_contains pods.unique_pod_names n || (name == n))
unfolding list_contains
contains-insert_named pods name pod n = ground (arith, eq_iff name n)

insert_non_fenced-Agrees :
    (pods : PodList) (pod : Pod) (name : Option String)
    → pod.name ≡ name
    → Agrees pods
    → Agrees (insert_non_fenced pods pod name)
insert_non_fenced-Agrees pods pod none h agrees = agrees
insert_non_fenced-Agrees pods pod (some name) h agrees = insert_named-Agrees pods name pod h agrees

contains-insert_non_fenced :
    (pods : PodList) (pod : Pod) (name : Option String) (n : String)
    → list_contains (insert_non_fenced pods pod name).unique_pod_names n
      ≡ (list_contains pods.unique_pod_names n || is_named n name)
contains-insert_non_fenced pods pod none n = ground arith
contains-insert_non_fenced pods pod (some name) n = contains-insert_named pods name pod n

add_non_fenced-Agrees :
    (pods : PodList) (rest : List Pod) → Agrees pods → Agrees (add_non_fenced pods rest)
unfolding add_non_fenced
add_non_fenced-Agrees pods [] agrees = agrees
add_non_fenced-Agrees pods (pod ∷ rest) agrees =
    add_non_fenced-Agrees (insert_non_fenced pods pod pod.name) rest
      (insert_non_fenced-Agrees pods pod pod.name refl agrees)

contains-add_non_fenced :
    (pods : PodList) (rest : List Pod) (n : String)
    → list_contains (add_non_fenced pods rest).unique_pod_names n
      ≡ (list_contains pods.unique_pod_names n || has_pod n rest)
unfolding add_non_fenced
contains-add_non_fenced pods [] n = ground arith
contains-add_non_fenced pods (pod ∷ rest) n = ground (
  arith,
  contains-add_non_fenced (insert_non_fenced pods pod pod.name) rest n,
  contains-insert_non_fenced pods pod pod.name n,
)

add_fenced-Agrees :
    (pods : PodList) (names : List String) → Agrees pods → Agrees (add_fenced pods names)
unfolding add_fenced
add_fenced-Agrees pods [] agrees = agrees
add_fenced-Agrees pods (name ∷ names) agrees =
    add_fenced-Agrees (insert_named pods name (record { name = some name })) names
      (insert_named-Agrees pods name (record { name = some name }) refl agrees)

contains-add_fenced :
    (pods : PodList) (names : List String) (n : String)
    → list_contains (add_fenced pods names).unique_pod_names n
      ≡ (list_contains pods.unique_pod_names n || list_contains names n)
unfolding add_fenced list_contains
contains-add_fenced pods [] n = ground arith
contains-add_fenced pods (name ∷ names) n = ground (
  arith,
  contains-add_fenced (insert_named pods name (record { name = some name })) names n,
  contains-insert_named pods name (record { name = some name }) n,
)

-- The name of every pod, fenced or not, stands among the merged pods once, and no other name does.
pub count-merge_and_deduplicate_pods :
    (non_fenced_pods : List Pod) (fenced_names : Option (List String)) (name : String)
    → count name (merge_and_deduplicate_pods non_fenced_pods fenced_names)
      ≡ one_if (has_pod name non_fenced_pods || list_contains (unwrap_or [] fenced_names) name)
unfolding merge_and_deduplicate_pods list_contains
count-merge_and_deduplicate_pods pods fenced_names name =
    let names = unwrap_or [] fenced_names in
    add_fenced-Agrees (add_non_fenced none_yet pods) names
      (add_non_fenced-Agrees none_yet pods (λ n. refl)) name
    ∙ ap one_if (
        contains-add_fenced (add_non_fenced none_yet pods) names name
        ∙ ap (λ b. b || list_contains names name) (contains-add_non_fenced none_yet pods name))
