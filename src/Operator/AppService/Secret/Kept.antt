-- ===== src/Operator/AppService/Secret/Kept.antt =====
-- What of the connections of an instance its applications see
-- (tembo-operator/src/app_service/manager.rs).
use tembo.Prelude.{
  String, ◌≡◌, ◌∙◌, refl, Bool, true, false, Option, none, some, [], ◌∷◌, arith, eq_iff, ◌==◌,
  if◌then◌else◌, inl, inr, Bool-cases, eq_refl, ◌&&◌,
}
use tembo.Prelude.BTreeMap
use tembo.Prelude.BTreeMap.{BTreeMap, IsOrdered, get-insert}
use tembo.Operator.AppService.Secret.{is_uri, for_apps, insert_uris, new_secret_data}

-- A new value where there is one, and otherwise what there was.
abbrev pub over : Option String → Option String → Option String
over none before = before
over (some value) before = some (for_apps value)

get-insert_if :
    (b : Bool) (key k value : String) (m : BTreeMap String)
    → BTreeMap.get k (if b then BTreeMap.insert key value m else m)
      ≡ (if b && key == k then some value else BTreeMap.get k m)
get-insert_if true key k value m = get-insert key k value m
get-insert_if false key k value m = refl

-- One entry more, by what the others give.
over_first :
    (key k value : String) (rest found : Option String)
    → (key == k ≡ true → rest ≡ none)
    → (if is_uri k
        then over rest (if is_uri key && key == k then some (for_apps value) else found)
        else (if is_uri key && key == k then some (for_apps value) else found))
      ≡ (if is_uri k then over (if key == k then some value else rest) found else found)
over_first key k value rest found h = elim (Bool-cases (key == k)) [
  | inl e ↦ rw (h e) (rw ((eq_iff key k).0 e, eq_refl k) (ground arith))
  | inr e ↦ rw e (ground arith)
]

get-insert_uris :
    (k : String) (original m : BTreeMap String)
    → IsOrdered original
    → BTreeMap.get k (insert_uris original m)
      ≡ (if is_uri k then over (BTreeMap.get k original) (BTreeMap.get k m) else BTreeMap.get k m)
unfolding insert_uris BTreeMap.get
get-insert_uris k [] m h = ground arith
get-insert_uris k ((key, value) ∷ original) m (above, h) =
    get-insert_uris k original (if is_uri key then BTreeMap.insert key (for_apps value) m else m) h
    ∙ rw (get-insert_if (is_uri key) key k (for_apps value) m) (
        over_first key k value (BTreeMap.get k original) (BTreeMap.get k m)
          (λ e. BTreeMap.get-below k original (rw ((eq_iff key k).0 e) at above)))

-- The secret of the applications has the three connections as far as the instance's secret has
-- them, marked as the applications', and nothing else of that secret.
pub new_secret_data-get :
    (k : String) (original : BTreeMap String)
    → IsOrdered original
    → BTreeMap.get k (new_secret_data original)
      ≡ (if is_uri k then over (BTreeMap.get k original) none else none)
unfolding new_secret_data BTreeMap.get
new_secret_data-get k original h = get-insert_uris k original [] h
