-- ===== src/Operator/Cnpg/Unfence.antt =====
-- How a pod is unfenced (tembo-operator/src/cloudnativepg/cnpg.rs).
use tembo.Prelude.{String, not, Option, none, some, List, [], ◌∷◌, ◌==◌, retain}
use tembo.Prelude.Trace.{pure, lift, ◌>>=◌}
use tembo.Prelude.BTreeMap.{BTreeMap, get, insert, remove}
use tembo.Operator.Types.{CoreDb}
use tembo.Operator.Api.{cluster, patch, cluster_object, Run, name_any}
use tembo.Operator.Api.ClusterTypes.{Cluster}
use tembo.Operator.Patches.{or_requeue, namespace_of, ask}
use tembo.Operator.Cnpg.Fencing.{Answers, fenced_instances_key}

abbrev pub fence_others : Answers → List String → BTreeMap String → BTreeMap String
fence_others answers [] annotations = remove fenced_instances_key annotations
fence_others answers (name ∷ names) annotations =
    insert fenced_instances_key (answers.to_json (name ∷ names)) annotations

-- The annotations without the pod. None where the annotation is missing or cannot be read.
unfoldable pub remove_pod_from_fenced_instances_annotation :
    Answers → BTreeMap String → String → Option (BTreeMap String)
unfolding get insert remove retain
remove_pod_from_fenced_instances_annotation answers annotations pod_name =
    elim (get fenced_instances_key annotations) [
      | none ↦ none
      | some text ↦ elim (answers.from_json text) [
        | none ↦ none
        | some names ↦
            some (fence_others answers (retain (λ name. not (name == pod_name)) names) annotations)
      ]
    ]

abbrev pub some_unless_empty : BTreeMap String → Option (BTreeMap String)
some_unless_empty [] = none
some_unless_empty (e ∷ m) = some (e ∷ m)

-- Without a list of fenced pods the annotation is removed.
abbrev pub unfenced_annotations : Answers → BTreeMap String → String → Option (BTreeMap String)
unfenced_annotations answers annotations pod_name =
    elim (remove_pod_from_fenced_instances_annotation answers annotations pod_name) [
      | none ↦ some_unless_empty (remove fenced_instances_key annotations)
      | some updated ↦ some updated
    ]

abbrev pub unfence_in :
    Answers → CoreDb → String → String → Cluster → Option (BTreeMap String) → Run (Unit {0})
unfence_in answers cdb namespace pod_name found none = pure tt
unfence_in answers cdb namespace pod_name found (some annotations) = ask answers.world 30 (
    patch cluster namespace (name_any cdb) (
      cluster_object
        (record found { annotations = unfenced_annotations answers annotations pod_name })))

unfoldable pub unfence_pod : Answers → CoreDb → String → Run (Unit {0})
unfolding remove_pod_from_fenced_instances_annotation
unfence_pod answers cdb pod_name = do
  namespace ← namespace_of cdb
  found ← lift (or_requeue 300 (answers.world.get_cluster namespace (name_any cdb)))
  unfence_in answers cdb namespace pod_name found found.annotations
