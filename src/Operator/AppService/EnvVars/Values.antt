-- ===== src/Operator/AppService/EnvVars/Values.antt =====
-- The value that a key is left with by a sequence of entries
-- (tembo-operator/src/app_service/manager.rs).
use tembo.Prelude.{
  String, ◌≡◌, ◌∙◌, refl, sym, Option, none, some, [], ◌∷◌, inl, inr, arith, eq_iff, ◌==◌,
  if◌then◌else◌, Bool-cases, All,
}
use tembo.Operator.Types.AppServices.{EnvVar}
use tembo.Operator.AppService.EnvVars.{Entries, put, put_all}

-- The value of the first entry with a key.
unfoldable pub value_of : String → Entries → Option EnvVar
value_of key [] = none
value_of key ((k, v) ∷ es) = if k == key then some v else value_of key es

-- The value of the last one.
unfoldable pub last_of : String → Entries → Option EnvVar
last_of key [] = none
last_of key ((k, v) ∷ es) = elim (last_of key es) [
  | some w ↦ some w
  | none ↦ if k == key then some v else none
]

value_of-put :
    (key j : String) (v : EnvVar) (es : Entries)
    → value_of j (put key v es) ≡ (if key == j then some v else value_of j es)
unfolding value_of put
value_of-put key j v [] = refl
value_of-put key j v ((k, w) ∷ es) =
    ground (arith, eq_iff k key, eq_iff k j, eq_iff key j, value_of-put key j v es)

pub value_of-put_all :
    (j : String) (ds es : Entries)
    → value_of j (put_all ds es) ≡ (elim (last_of j ds) [ some v ↦ some v | none ↦ value_of j es ])
unfolding value_of last_of put_all
value_of-put_all j [] es = refl
value_of-put_all j ((k, v) ∷ ds) es =
    ground (arith, value_of-put_all j ds (put k v es), value_of-put k j v es)

-- Each key is the name of the variable.
abbrev pub IsNamed : Entries → Type 0
IsNamed = All (λ e. e.1.name ≡ e.0)

put-IsNamed :
    (key : String) (v : EnvVar) (es : Entries) → v.name ≡ key → IsNamed es → IsNamed (put key v es)
unfolding put
put-IsNamed key v [] h a = (h, tt)
put-IsNamed key v ((k, w) ∷ es) h (a, as_named) = elim (Bool-cases (k == key)) [
  | inl e ↦ rw (e, put) (h ∙ sym ((eq_iff k key).0 e), as_named)
  | inr e ↦ rw (e, put) (a, put-IsNamed key v es h as_named)
]

pub put_all-IsNamed : (ds es : Entries) → IsNamed ds → IsNamed es → IsNamed (put_all ds es)
unfolding put_all
put_all-IsNamed [] es h a = a
put_all-IsNamed ((k, v) ∷ ds) es (h, hs) a =
    put_all-IsNamed ds (put k v es) hs (put-IsNamed k v es h a)
