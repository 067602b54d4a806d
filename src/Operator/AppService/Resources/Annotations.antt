-- ===== src/Operator/AppService/Resources/Annotations.antt =====
-- The annotations of the applications' resources
-- (tembo-operator/src/app_service/manager.rs).

use tembo.Prelude.{
  String, ◌≡◌, ◌∙◌, refl, true, false, Option, none, some, [], ◌∷◌, arith, eq_iff, eq_refl, ◌==◌,
  if◌then◌else◌, All, inl, inr, Bool-cases, str_lt, str_lt_trans, str_lt_irrefl, members,
}
use tembo.Prelude.BTreeMap
use tembo.Prelude.BTreeMap.{BTreeMap, IsOrdered, get-insert, get-below}
use tembo.Operator.Types.{CoreDb}
use tembo.Operator.AppService.Resources.{collected, generate_appsvc_annotations}

abbrev pub or_else : Option String → Option String → Option String
or_else none o = o
or_else (some v) o = some v

abbrev rename_to : String → String → String → String
rename_to a b key = if key == a then b else key

-- What a key has after the collection of the entries, over what it had before.
abbrev outcome : String → String → String → BTreeMap String → Option String → Option String
outcome a b k es before =
    if k == a
    then before
    else if k == b
    then or_else (BTreeMap.get b es) (or_else (BTreeMap.get a es) before)
    else or_else (BTreeMap.get k es) before

Above-trans :
    (j k : String) (m : BTreeMap String)
    → str_lt j k ≡ true
    → All (λ e. str_lt k e.0 ≡ true) m
    → All (λ e. str_lt j e.0 ≡ true) m
Above-trans j k [] h a = tt
Above-trans j k ((i, w) ∷ m) h (a, as_above) =
    (str_lt_trans j k i h a, Above-trans j k m h as_above)

module _ (a b : String) (first : str_lt a b ≡ true) where
  distinct : (a == b) ≡ false
  distinct = ground (arith, eq_iff a b, str_lt_irrefl b)

  -- One entry that is collected before the others, by what these give.
  outcome_first :
      (k key v : String) (es : BTreeMap String) (before : Option String)
      → All (λ e. str_lt key e.0 ≡ true) es
      → outcome a b k es (if rename_to a b key == k then some v else before)
        ≡ outcome a b k ((key, v) ∷ es) before
  unfolding BTreeMap.get
  outcome_first k key v es before above = elim (Bool-cases (key == a)) [
    | inl e ↦
        let same : key ≡ a = (eq_iff key a).0 e in
        let absent : BTreeMap.get a es ≡ none = get-below a es (rw same at above) in
        rw same (
          ground (
            arith,
            absent,
            distinct,
            eq_iff a b,
            eq_iff a k,
            eq_iff b k,
            eq_iff k a,
            eq_iff k b,
            eq_refl a,
          ))
    | inr e ↦ elim (Bool-cases (key == b)) [
      | inl f ↦
          let same : key ≡ b = (eq_iff key b).0 f in
          let above_b : All (λ e. str_lt b e.0 ≡ true) es = rw same at above in
          let absent : BTreeMap.get b es ≡ none = get-below b es above_b in
          let none_a : BTreeMap.get a es ≡ none =
            get-below a es (Above-trans a b es first above_b) in
          rw same (
            ground (
              arith,
              absent,
              none_a,
              distinct,
              eq_iff a b,
              eq_iff b a,
              eq_iff b k,
              eq_iff k a,
              eq_iff k b,
              eq_refl b,
            ))
      | inr f ↦
          let absent : (key == k) ≡ true → BTreeMap.get k es ≡ none =
            λ g. get-below k es (rw ((eq_iff key k).0 g) at above) in
          ground (
            arith,
            absent,
            distinct,
            e,
            f,
            eq_iff key a,
            eq_iff key b,
            eq_iff key k,
            eq_iff k a,
            eq_iff k b,
          )
    ]
  ]

  get-collected :
      (k : String) (es m : BTreeMap String)
      → IsOrdered es
      → BTreeMap.get k (collected (rename_to a b) es m) ≡ outcome a b k es (BTreeMap.get k m)
  unfolding collected BTreeMap.get
  get-collected k [] m h = ground arith
  get-collected k ((key, v) ∷ es) m (above, h) =
      get-collected k es (BTreeMap.insert (rename_to a b key) v m) h
      ∙ rw (get-insert (rename_to a b key) k v m)
          (outcome_first k key v es (BTreeMap.get k m) above)

abbrev org : String
org = "tembo.io/org_id"

abbrev organization : String
organization = "tembo.io/organization_id"

org_first : str_lt org organization ≡ true
unfolding str_lt
org_first = refl

-- The annotations of the applications are those of the instance, but for the id of the organization:
-- the short name of it is not among them, and under the long one there is what the instance has
-- under the long one, or else under the short one.
pub generate_appsvc_annotations-get :
    (cdb : CoreDb) (k : String)
    → IsOrdered (members cdb.annotations)
    → BTreeMap.get k (generate_appsvc_annotations cdb) ≡ (
        if k == org
        then none
        else if k == organization
        then or_else
            (BTreeMap.get organization (members cdb.annotations))
            (BTreeMap.get org (members cdb.annotations))
        else BTreeMap.get k (members cdb.annotations))
unfolding generate_appsvc_annotations BTreeMap.get
generate_appsvc_annotations-get cdb k h =
    get-collected org organization org_first k (members cdb.annotations) [] h ∙ ground arith
